-- ===== src/Hub/Devices.antt =====
-- A user's list of clients in internal/ws/hub.go, under the changes that the operations make to it.
use chirpy.Prelude.{
  ℕ, ◌≤◌, ◌≡◌, refl, true, false, not, ◌&&◌, ◌||◌, List, [], ◌∷◌, ◌++◌, arith, if◌then◌else◌, ◌==◌,
  length, contains, insert, delete, lookup, lookup-insert, lookup-delete, inl, inr, Bool-cases,
}
use chirpy.Hub.State.{Hub, close, or_nil, list_of}
use chirpy.Hub.Ops.{take_away, close_all}

abbrev pub Distinct : List ℕ → Type 0
Distinct [] = Unit
Distinct (x ∷ xs) = Distinct xs × (contains xs x ≡ false)

pub contains-append :
    (xs : List ℕ) (p q : ℕ) → contains (xs ++ (p ∷ [])) q ≡ (contains xs q || (p == q))
contains-append [] p q = ground arith
contains-append (x ∷ xs) p q = ground (arith, contains-append xs p q)

pub Distinct-append :
    (xs : List ℕ) (p : ℕ) → Distinct xs → contains xs p ≡ false → Distinct (xs ++ (p ∷ []))
Distinct-append [] p d e = (tt, refl)
Distinct-append (x ∷ xs) p d e =
    let ih = Distinct-append xs p d.0 (ground arith) in
    (ih, ground (arith, d.1, contains-append xs p x))

pub contains-take_away :
    (xs : List ℕ) (p q : ℕ)
    → Distinct xs
    → contains (take_away p xs) q ≡ (contains xs q && not (p == q))
contains-take_away [] p q d = refl
contains-take_away (x ∷ xs) p q d = ground (arith, contains-take_away xs p q d.0, d.1)

pub Distinct-take_away : (xs : List ℕ) (p : ℕ) → Distinct xs → Distinct (take_away p xs)
Distinct-take_away [] p d = d
Distinct-take_away (x ∷ xs) p d =
    let ih = Distinct-take_away xs p d.0 in
    elim (Bool-cases (x == p)) [
      | inl e ↦ rw e d.0
      | inr e ↦ rw e (ih, ground (arith, d.1, contains-take_away xs p x d.0))
    ]

pub length-take_away : (xs : List ℕ) (p : ℕ) → length (take_away p xs) ≤ length xs
length-take_away [] p = omega arith
length-take_away (x ∷ xs) p = ground (arith, length-take_away xs p)

-- What closing a list of clients leaves as it was.
pub close_all_rest :
    (h : Hub) (list : List ℕ)
    → ((close_all h list).objs ≡ h.objs)
      × ((close_all h list).queue ≡ h.queue)
      × ((close_all h list).next_ptr ≡ h.next_ptr)
unfolding close_all close
close_all_rest h [] = (refl, refl, refl)
close_all_rest h (p ∷ list) = close_all_rest (close h p) list

pub closed-close_all :
    (h : Hub) (list : List ℕ) (q : ℕ)
    → (close_all h list).closed q ≡ (h.closed q || contains list q)
unfolding close_all close
closed-close_all h [] q = ground arith
closed-close_all h (p ∷ list) q = ground (arith, closed-close_all (close h p) list q)

-- Closing distinct clients that are open is no panic.
pub panicked-close_all :
    (h : Hub) (list : List ℕ)
    → Distinct list
    → ((q : ℕ) → contains list q ≡ true → h.closed q ≡ false)
    → (close_all h list).panicked ≡ h.panicked
unfolding close_all close
panicked-close_all h [] d o = refl
panicked-close_all h (p ∷ list) d o =
    let ih = panicked-close_all (close h p) list d.0 (λ q e. let k = o q in ground (arith, d.1)) in
    let k = o p in ground arith

pub list_of-insert :
    (h : Hub) (u v : ℕ) (l : List ℕ)
    → or_nil (lookup v (insert u l h.clients)) ≡ (if u == v then l else list_of h v)
list_of-insert h u v l = ground (arith, lookup-insert u v l h.clients)

pub list_of-delete :
    (h : Hub) (u v : ℕ)
    → or_nil (lookup v (delete u h.clients)) ≡ (if u == v then [] else list_of h v)
list_of-delete h u v = ground (arith, lookup-delete u v h.clients)
