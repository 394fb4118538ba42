-- ===== src/Hub/Invariant.antt =====
-- The invariant of the hub of internal/ws/hub.go, and the changes that keep it.
use chirpy.Prelude.{
  ℕ, ◌≤◌, ◌<◌, ◌≡◌, ◌≢◌, refl, true, false, not, ◌&&◌, ◌||◌, some, List, [], ◌∷◌, ◌++◌, arith,
  if◌then◌else◌, ltb, ◌==◌, length, contains, insert, delete, lookup, lookup-insert, lookup-delete,
  inl, inr, Bool-cases,
}
use chirpy.Hub.State.{Hub, close, or_nil, list_of, max_devices}
use chirpy.Hub.Ops.{take_away, close_all, new_client, is_nil}
use chirpy.Hub.Devices.{
  Distinct, contains-append, Distinct-append, contains-take_away, Distinct-take_away,
  closed-close_all, panicked-close_all, close_all_rest, list_of-insert, list_of-delete,
}

-- A registered client stands in the list of its own user, once. Send is closed exactly for the
-- clients that are registered no more, and nothing has panicked. No list in the map is empty.
pub record Live (h : Hub) : Type 0 where
  pub owned :
      (u p : ℕ) → contains (list_of h u) p ≡ true → ((h.objs p).user_id ≡ u) × (p < h.next_ptr)
  pub shut :
      (p : ℕ) → h.closed p ≡ (ltb p h.next_ptr && not (contains (list_of h (h.objs p).user_id) p))
  pub once : (u : ℕ) → Distinct (list_of h u)
  pub kept : (u : ℕ) → lookup u h.clients ≢ some []
  pub calm : h.panicked ≡ false

abbrev pub Few : Hub → Type 0
Few h = (u : ℕ) → length (list_of h u) ≤ max_devices

pub open_lem : (h : Hub) (u p : ℕ) → Live h → contains (list_of h u) p ≡ true → h.closed p ≡ false
open_lem h u p v e = let (o, l) = v.owned u p e in let s = v.shut p in rw (s, o, e) (ground arith)

pub is_nil-append : (xs : List ℕ) (n : ℕ) → is_nil (xs ++ (n ∷ [])) ≡ false
is_nil-append [] n = refl
is_nil-append (x ∷ xs) n = refl

new_out : (h : Hub) (u : ℕ) → Live h → contains (list_of h u) h.next_ptr ≡ false
new_out h u v = elim (Bool-cases (contains (list_of h u) h.next_ptr)) [
  | inl e ↦ absurd (omega (arith, (v.owned u h.next_ptr e).1))
  | inr e ↦ e
]

-- A client goes from its user's list, and its Send is closed.
pub drop-Live :
    (h : Hub) (u p : ℕ) (clients : List (ℕ × List ℕ))
    → Live h
    → contains (list_of h u) p ≡ true
    → ((v : ℕ)
        → or_nil (lookup v clients) ≡ (if u == v then take_away p (list_of h u) else list_of h v))
    → ((v : ℕ) → lookup v clients ≢ some [])
    → Live (record (close h p) { clients = clients })
unfolding close
drop-Live h u p clients v e lists kept =
    let mem : (w q : ℕ)
        → contains (or_nil (lookup w clients)) q ≡ (
            if u == w then contains (list_of h u) q && not (p == q) else contains (list_of h w) q) =
      λ w q. ground (arith, lists w, contains-take_away (list_of h u) p q (v.once u)) in
    record {
      owned = λ w q c. v.owned w q (ground (arith, mem w q, c));
      shut = λ q. ground (arith, mem (h.objs q).user_id q, v.shut q, v.owned u p e);
      once = λ w. elim (Bool-cases (u == w)) [
        | inl b ↦ rw (lists w, b) (Distinct-take_away (list_of h u) p (v.once u))
        | inr b ↦ rw (lists w, b) (v.once w)
      ];
      kept = kept;
      calm = rw (v.calm) (open_lem h u p v e);
    }

pub add-Live :
    (h : Hub) (u id : ℕ)
    → Live h
    → Live (record (new_client h u id) {
      clients = insert u (list_of h u ++ (h.next_ptr ∷ [])) h.clients;
    })
unfolding new_client
add-Live h u id v =
    let n = h.next_ptr in
    let out : contains (list_of h u) n ≡ false = new_out h u v in
    let mem : (w q : ℕ)
        → contains (or_nil (lookup w (insert u (list_of h u ++ (n ∷ [])) h.clients))) q
          ≡ (if u == w then contains (list_of h u) q || (n == q) else contains (list_of h w) q) =
      λ w q. ground (
        arith,
        list_of-insert h u w (list_of h u ++ (n ∷ [])),
        contains-append (list_of h u) n q,
      ) in
    record {
      owned = λ w q c. ground (arith, mem w q, c, v.owned w q, new_out h w v);
      shut = λ q. ground (arith, mem (h.objs q).user_id q, mem u q, v.shut q, v.owned u q);
      once = λ w. elim (Bool-cases (u == w)) [
        | inl b ↦
            rw (list_of-insert h u w (list_of h u ++ (n ∷ [])), b)
              (Distinct-append (list_of h u) n (v.once u) out)
        | inr b ↦ rw (list_of-insert h u w (list_of h u ++ (n ∷ [])), b) (v.once w)
      ];
      kept = λ w c. absurd (
          ground (
            arith,
            lookup-insert u w (list_of h u ++ (n ∷ [])) h.clients,
            is_nil-append (list_of h u) n,
            v.kept w,
            c,
          ));
      calm = v.calm;
    }

pub clear-Live :
    (h : Hub) (u : ℕ)
    → Live h
    → Live (record (close_all h (list_of h u)) { clients = delete u h.clients })
clear-Live h u v =
    let (objs, queue, next) = close_all_rest h (list_of h u) in
    record {
      owned = λ w q c. rw (objs, next) (v.owned w q (ground (arith, list_of-delete h u w, c)));
      shut = λ q.
          rw (objs, next, closed-close_all h (list_of h u) q)
            (ground (arith, list_of-delete h u (h.objs q).user_id, v.shut q, v.owned u q));
      once = λ w. elim (Bool-cases (u == w)) [
        | inl b ↦ rw (list_of-delete h u w, b) tt
        | inr b ↦ rw (list_of-delete h u w, b) (v.once w)
      ];
      kept = λ w c. v.kept w (ground (arith, lookup-delete u w h.clients, c));
      calm = rw (panicked-close_all h (list_of h u) (v.once u) (λ q c. open_lem h u q v c)) v.calm;
    }
