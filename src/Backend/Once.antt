-- ===== src/Backend/Once.antt =====
-- Every backend gets one result from a round of src/backend/health_checker.c.
use l4_maglev_lb.Common.{
  ℕ, zero, suc, ◌+◌, ◌-◌, ◌≤◌, ◌<◌, ◌≡◌, refl, sym, ap, subst, Bool, true, false, Option, List, [],
  ◌∷◌, arith, get_or, set, length, length-set, count,
}
use l4_maglev_lb.Backend.State.{Backend, zero_backend, backend_max}
use l4_maglev_lb.Backend.Manager.{backend_manager_snapshot_all}
use l4_maglev_lb.Backend.Health.{HealthChecker}
use l4_maglev_lb.Backend.Snapshots.{ids_in}
use l4_maglev_lb.Backend.Round.{
  Probe, Event, wake, admin, resolved, Wait, interrupted, wait_failed, events, Round, recorded,
  start_probes, with_admin, on_events, unless_aborted, while_pending, await_probes, time_out,
  fresh_round, run_probe_round,
}
use l4_maglev_lb.Backend.Counted.{
  recorded_for, open_for, Balanced, recorded_for-append, recorded-one, open_for-set, start-Balanced,
}

-- `epoll_wait` only names sockets that are registered: those of backends that are not done.
abbrev pub Named : List Bool → List Event → Type 0
Named ds [] = Unit
Named ds (wake ∷ es) = Named ds es
Named ds (admin bytes ∷ es) = Named ds es
Named ds (resolved i ok ∷ es) =
    (i < length ds) × (get_or ds i true ≡ false) × Named (set ds i true) es

abbrev done_after : List Bool → List Event → List Bool
done_after ds [] = ds
done_after ds (wake ∷ es) = done_after ds es
done_after ds (admin bytes ∷ es) = done_after ds es
done_after ds (resolved i ok ∷ es) = done_after (set ds i true) es

abbrev pub AllNamed : List Bool → List Wait → Type 0
AllNamed ds [] = Unit
AllNamed ds (interrupted ∷ ws) = AllNamed ds ws
AllNamed ds (wait_failed ∷ ws) = AllNamed ds ws
AllNamed ds (events es ∷ ws) = Named ds es × AllNamed (done_after ds es) ws

module _ (sscanf : List ℕ → Option (List ℕ × ℕ)) (bs : List Backend) where
  resolved-Balanced :
      (i : ℕ) (ok : Bool) (r : Round)
      → i < length r.done
      → get_or r.done i true ≡ false
      → Balanced bs r
      → Balanced bs (
          recorded
            (get_or bs i zero_backend).id
            ok
            (record r { done = set r.done i true; pending = r.pending - 1 }))
  unfolding recorded
  resolved-Balanced i ok r p fresh h = record {
    width = omega (arith, h.width, length-set r.done i true);
    once = λ x. omega (
      arith,
      h.once x,
      recorded_for-append x r.calls (((get_or bs i zero_backend).id, ok) ∷ []),
      open_for-set x bs r.done i p h.width fresh,
    );
  }

  events-Balanced :
      (es : List Event) (r : Round)
      → Named r.done es
      → Balanced bs r
      → Balanced bs (on_events sscanf bs es r).0
  unfolding on_events with_admin recorded
  events-Balanced [] r n h = h
  events-Balanced (wake ∷ es) r n h = h
  events-Balanced (admin bytes ∷ es) r n h =
      events-Balanced es (with_admin sscanf bytes r) n (record { width = h.width; once = h.once })
  events-Balanced (resolved i ok ∷ es) r (p, fresh, n) h =
      events-Balanced es _ n (resolved-Balanced i ok r p fresh h)

  events-done :
      (es : List Event) (r : Round)
      → (on_events sscanf bs es r).1 ≡ false
      → (on_events sscanf bs es r).0.done ≡ done_after r.done es
  unfolding on_events with_admin recorded
  events-done [] r going = refl
  events-done (wake ∷ es) r going = absurd (ground (arith, going))
  events-done (admin bytes ∷ es) r going = events-done es (with_admin sscanf bytes r) going
  events-done (resolved i ok ∷ es) r going = events-done es _ going

  while-Balanced :
      (k : ℕ) (r : Round) (next : Round × Bool)
      → Balanced bs r
      → Balanced bs next.0
      → Balanced bs (while_pending sscanf k r next).0
  while-Balanced zero r next h h' = h
  while-Balanced (suc k) r next h h' = h'

  unless-Balanced :
      (r : Round × Bool) (next : Round → Round × Bool)
      → Balanced bs r.0
      → (r.1 ≡ false → Balanced bs (next r.0).0)
      → Balanced bs (unless_aborted sscanf r next).0
  unless-Balanced (r, true) next h go = h
  unless-Balanced (r, false) next h go = go refl

  await-Balanced :
      (ws : List Wait) (r : Round)
      → AllNamed r.done ws
      → Balanced bs r
      → Balanced bs (await_probes sscanf bs ws r).0
  unfolding await_probes
  await-Balanced [] r n h = h
  await-Balanced (interrupted ∷ ws) r n h = while-Balanced r.pending r _ h (await-Balanced ws r n h)
  await-Balanced (wait_failed ∷ ws) r n h = h
  await-Balanced (events es ∷ ws) r (n, ns) h =
      let here = events-Balanced es r n h in
      while-Balanced r.pending r _ h (
        unless-Balanced (on_events sscanf bs es r) (await_probes sscanf bs ws) here (λ going.
          await-Balanced ws (on_events sscanf bs es r).0
            (subst (λ ds. AllNamed ds ws) (sym (events-done es r going)) ns) here))

  time_out-calls :
      (x : ℕ) (cs : List Backend) (ds : List Bool) (r : Round)
      → recorded_for x (time_out sscanf cs ds false r).calls
        ≡ recorded_for x r.calls + open_for x cs ds
  unfolding time_out
  time_out-calls x [] ds r = omega arith
  time_out-calls x (b ∷ cs) [] r = omega arith
  time_out-calls x (b ∷ cs) (true ∷ ds) r = time_out-calls x cs ds r
  time_out-calls x (b ∷ cs) (false ∷ ds) r =
      omega (arith, time_out-calls x cs ds (recorded b.id false r), recorded-one x b.id false r)

  time_out-aborted :
      (cs : List Backend) (ds : List Bool) (r : Round)
      → (time_out sscanf cs ds true r).calls ≡ r.calls
  unfolding time_out
  time_out-aborted [] ds r = refl
  time_out-aborted (b ∷ cs) [] r = refl
  time_out-aborted (b ∷ cs) (true ∷ ds) r = time_out-aborted cs ds r
  time_out-aborted (b ∷ cs) (false ∷ ds) r = time_out-aborted cs ds r

  at_end :
      (x : ℕ) (aborted : Bool) (r : Round)
      → Balanced bs r
      → recorded_for x (time_out sscanf bs r.done aborted r).calls ≤ count x (ids_in bs)
  at_end x true r h = omega (arith, ap (recorded_for x) (time_out-aborted bs r.done r), h.once x)
  at_end x false r h = omega (arith, time_out-calls x bs r.done r, h.once x)

  at_full_end :
      (x : ℕ) (aborted : Bool) (r : Round)
      → aborted ≡ false
      → Balanced bs r
      → recorded_for x (time_out sscanf bs r.done aborted r).calls ≡ count x (ids_in bs)
  at_full_end x true r e h = absurd (ground (arith, e))
  at_full_end x false r e h = omega (arith, time_out-calls x bs r.done r, h.once x)

module _ (sscanf : List ℕ → Option (List ℕ × ℕ)) (ps : List Probe) (ws : List Wait)
    (hc : HealthChecker) (buf : List ℕ) where
  abbrev pub known : List Backend
  known = backend_manager_snapshot_all hc.bm backend_max

  abbrev pub started : Round
  started = start_probes known ps (fresh_round sscanf hc buf)

  waited-Balanced :
      AllNamed started.done ws → Balanced known (await_probes sscanf known ws started).0
  waited-Balanced named = await-Balanced sscanf known ws started named (
      start-Balanced [] known ps (fresh_round sscanf hc buf)
        (record { width = refl; once = λ x. refl }))

  -- Where `epoll_wait` only names sockets that are registered, a round, aborted or not, records no
  -- more results for an id than there are backends of that id.
  pub run_probe_round-le :
      (x : ℕ)
      → AllNamed started.done ws
      → recorded_for x (run_probe_round sscanf ps ws hc buf).0.calls ≤ count x (ids_in known)
  unfolding run_probe_round
  run_probe_round-le x named = at_end sscanf known x _ _ (waited-Balanced named)

  -- Where `epoll_wait` only names sockets that are registered, a round that is not aborted records
  -- one result for each backend that was known at its start, whichever connections could be started,
  -- were resolved or timed out, and whatever commands came in between.
  pub run_probe_round-once :
      (x : ℕ)
      → AllNamed started.done ws
      → (run_probe_round sscanf ps ws hc buf).1 ≡ false
      → recorded_for x (run_probe_round sscanf ps ws hc buf).0.calls ≡ count x (ids_in known)
  unfolding run_probe_round
  run_probe_round-once x named whole = at_full_end sscanf known x _ _ whole (waited-Balanced named)
