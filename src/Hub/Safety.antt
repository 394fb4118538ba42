-- ===== src/Hub/Safety.antt =====
-- internal/ws/hub.go: no panic, no client left behind, at most five devices a user.
use chirpy.Prelude.{
  ℕ, ◌≤◌, ◌≡◌, ◌≢◌, refl, some, List, [], ◌∷◌, ◌++◌, arith, if◌then◌else◌, ltb, ◌==◌, length,
  length-append, contains, insert, lookup, lookup-insert, lookup-delete, inl, inr, Bool-cases,
}
use chirpy.Hub.State.{Hub, close, or_nil, list_of, max_devices}
use chirpy.Hub.Ops.{
  take_away, new_client, with_device, register, without_device, remove, disconnect,
}
use chirpy.Hub.Devices.{length-take_away, list_of-insert, list_of-delete, close_all_rest}
use chirpy.Hub.Invariant.{Live, Few, drop-Live, add-Live, clear-Live}
use chirpy.Hub.Runs.{
  Op, registers, removes, disconnects, sends, sends_to, sends_except, drains, run, run_all, Sound,
  Requeued-Sound, run-Requeued,
}

pub without_device-clients :
    (k : Hub) (u : ℕ) (l : List ℕ)
    → (without_device k u l).0 ≡ record k { clients = (without_device k u l).0.clients }
unfolding without_device
without_device-clients k u [] = refl
without_device-clients k u (q ∷ l) = refl

pub without_device-list :
    (k : Hub) (u v : ℕ) (l : List ℕ)
    → or_nil (lookup v (without_device k u l).0.clients) ≡ (if u == v then l else list_of k v)
unfolding without_device
without_device-list k u v [] = list_of-delete k u v
without_device-list k u v (q ∷ l) = list_of-insert k u v (q ∷ l)

without_device-kept :
    (k : Hub) (u v : ℕ) (l : List ℕ)
    → lookup v k.clients ≢ some []
    → lookup v (without_device k u l).0.clients ≢ some []
unfolding without_device
without_device-kept k u v [] n e = n (ground (arith, lookup-delete u v k.clients, e))
without_device-kept k u v (q ∷ l) n e = n (ground (arith, lookup-insert u v (q ∷ l) k.clients, e))

remove-Sound : (h : Hub) (p : ℕ) → Sound h → Sound (remove h p).0
unfolding remove close
remove-Sound h p v =
    let u = (h.objs p).user_id in
    let l = take_away p (list_of h u) in
    elim (Bool-cases (contains (list_of h u) p)) [
      | inr e ↦ rw e v
      | inl e ↦
          rw (e, without_device-clients (close h p) u l)
            record {
              live =
                  drop-Live h u p (without_device (close h p) u l).0.clients v.live e
                    (λ w. without_device-list (close h p) u w l)
                    (λ w. without_device-kept (close h p) u w l (v.live.kept w));
              few = λ w. ground (
                arith,
                without_device-list (close h p) u w l,
                v.few w,
                v.few u,
                length-take_away (list_of h u) p,
              );
              bounded = v.bounded;
            }
    ]

with_device-Sound :
    (k : Hub) (u : ℕ) (l : List ℕ)
    → Live (record k { clients = insert u l k.clients })
    → Few k
    → ((p : ℕ) → length (k.queue p) ≤ 256)
    → length l ≤ 6
    → Sound (with_device k u l).0
unfolding with_device close
with_device-Sound k u [] v few b n =
    absurd (v.kept u (ground (arith, lookup-insert u u [] k.clients)))
with_device-Sound k u (o ∷ rest) v few b n =
    elim (Bool-cases (ltb max_devices (length (o ∷ rest)))) [
      | inr e ↦ rw e record {
        live = v;
        few = λ w. ground (arith, list_of-insert k u w (o ∷ rest), few w);
        bounded = b;
      }
      | inl e ↦
          let full = record k { clients = insert u (o ∷ rest) k.clients } in
          rw e record {
            live =
                drop-Live full u o (insert u rest k.clients) v
                  (ground (arith, list_of-insert k u u (o ∷ rest)))
                  (λ w.
                    let own : list_of full u ≡ o ∷ rest =
                      ground (arith, list_of-insert k u u (o ∷ rest)) in
                    rw own
                      (ground (arith, list_of-insert k u w rest, list_of-insert k u w (o ∷ rest))))
                  (λ w c. v.kept w (
                    ground (
                      arith,
                      lookup-insert u w rest k.clients,
                      lookup-insert u w (o ∷ rest) k.clients,
                      c,
                    )));
            few = λ w. ground (arith, list_of-insert k u w rest, few w);
            bounded = b;
          }
    ]

register-Sound : (h : Hub) (u id : ℕ) → Sound h → Sound (register h u id).0
unfolding register new_client
register-Sound h u id v =
    with_device-Sound (new_client h u id) u (list_of h u ++ (h.next_ptr ∷ []))
      (add-Live h u id v.live) v.few (λ p. ground (arith, v.bounded p))
      (omega (arith, length-append (list_of h u) (h.next_ptr ∷ []), v.few u))

disconnect-Sound : (h : Hub) (u : ℕ) → Sound h → Sound (disconnect h u).0
unfolding disconnect
disconnect-Sound h u v =
    let (objs, queue, next) = close_all_rest h (list_of h u) in
    record {
      live = clear-Live h u v.live;
      few = λ w. ground (arith, list_of-delete h u w, v.few w);
      bounded = rw queue v.bounded;
    }

pub run-Sound : (h : Hub) (x : Op) → Sound h → Sound (run h x).0
unfolding run
run-Sound h (registers u id) v = register-Sound h u id v
run-Sound h (removes p) v = remove-Sound h p v
run-Sound h (disconnects u) v = disconnect-Sound h u v
run-Sound h (sends targets bytes) v =
    Requeued-Sound h _ (run-Requeued h (sends targets bytes) refl v) v
run-Sound h (sends_to u p bytes) v =
    Requeued-Sound h _ (run-Requeued h (sends_to u p bytes) refl v) v
run-Sound h (sends_except u except bytes) v =
    Requeued-Sound h _ (run-Requeued h (sends_except u except bytes) refl v) v
run-Sound h (drains p) v = Requeued-Sound h _ (run-Requeued h (drains p) refl v) v

-- From a sound hub, under any interleaving of registrations, removals, disconnects, sends and
-- reads: no closed channel is closed or sent to, Send is closed for exactly the clients that are
-- registered no more, each registered client stands once in its own user's list, no user has more
-- than five devices or an empty list, and no buffer holds more than it has room for.
pub run_all-Sound : (h : Hub) (xs : List Op) → Sound h → Sound (run_all h xs).0
unfolding run_all
run_all-Sound h [] v = v
run_all-Sound h (x ∷ xs) v = run_all-Sound (run h x).0 xs (run-Sound h x v)
