-- ===== src/Harmony/Round/Behind.antt =====
-- Rounds whose generation has been left behind (harmony/pushy/src/main/ets/SyncCoordinator.ts).
use react_native_pushy.Common.{
  ℕ, ◌+◌, ◌≤◌, String, Bool, true, false, not, if◌then◌else◌, Option, none, some, ◌≡◌, refl, sym,
  ap, ◌∙◌, arith,
}
use react_native_pushy.Harmony.Round.{
  Result, Finish, Task, absent, deferred, running, done, Host, rejected, timed_out, World,
  schedule_native_sync, run_gate, answer, begin_round, mark_incomplete, end_round, expire, time_out,
  same_generation, start_behind, start_native_round, prepare_behind, prepare_bundle_native, resume,
  has_js_round, fire_timer, result_of,
}
use react_native_pushy.Harmony.Round.Laws.{begun}

-- The generation that was sampled lies so far behind.
abbrev pub Lags : ℕ → Option ℕ → ℕ → Type 0
Lags d none g = Unit
Lags d (some k) g = k + d ≤ g

pub record IsBehind (d : ℕ) (w : World) : Type 0 where
  pub started : begun w.task ≡ 1
  pub lags : Lags d w.round_generation w.reset_generation

pub IsBehind-if :
    (d : ℕ) (b : Bool) (x y : World) → IsBehind d x → IsBehind d y → IsBehind d (if b then x else y)
IsBehind-if d true x y h k = h
IsBehind-if d false x y h k = k

pub Lags-suc : (d : ℕ) (k : Option ℕ) (g : ℕ) → Lags d k g → Lags (d + 1) k (g + 1)
Lags-suc d none g h = tt
Lags-suc d (some k) g h = omega (arith, h)

Lags-weaken : (d : ℕ) (k : Option ℕ) (g : ℕ) → Lags (d + 1) k g → Lags d k g
Lags-weaken d none g h = tt
Lags-weaken d (some k) g h = omega (arith, h)

pub differs-generation : (k : Option ℕ) (g : ℕ) → Lags 1 k g → same_generation k g ≡ false
differs-generation none g h = refl
differs-generation (some k) g h = ground (arith, h)

pub IsBehind-weaken : (d : ℕ) (w : World) → IsBehind (d + 1) w → IsBehind d w
IsBehind-weaken d w h = record {
  started = h.started;
  lags = Lags-weaken d w.round_generation w.reset_generation h.lags;
}

pub begin_round-IsBehind :
    (d : ℕ) (t : Task) (w : World) → w.task ≡ t → IsBehind d w → IsBehind d (begin_round t w)
begin_round-IsBehind d absent w e h = h
begin_round-IsBehind d running w e h = h
begin_round-IsBehind d (done r) w e h = h
begin_round-IsBehind d deferred w e h = absurd (omega (arith, sym (ap begun e) ∙ h.started))

pub end_round-IsBehind :
    (d : ℕ) (t : Task) (finish : Option Finish) (w : World)
    → IsBehind d w
    → IsBehind d (end_round t finish w)
end_round-IsBehind d absent finish w h = h
end_round-IsBehind d deferred finish w h = h
end_round-IsBehind d (done r) finish w h = h
end_round-IsBehind d running finish w h = record { started = refl; lags = h.lags }

pub mark_incomplete-IsBehind :
    (d : ℕ) (t : Task) (w : World) → IsBehind d w → IsBehind d (mark_incomplete t w)
mark_incomplete-IsBehind d absent w h = h
mark_incomplete-IsBehind d deferred w h = h
mark_incomplete-IsBehind d (done r) w h = h
mark_incomplete-IsBehind d running w h = record { started = h.started; lags = h.lags }

time_out-IsBehind :
    (d : ℕ) (x : Host) (before w : World)
    → IsBehind d before
    → IsBehind d w
    → IsBehind d (time_out x before w)
time_out-IsBehind d x before w b h =
    IsBehind-if d x.bounded (answer x.id timed_out w) before
      (record { started = h.started; lags = h.lags }) b

pub expire-IsBehind :
    (d : ℕ) (t : Task) (host : Option Host) (before w : World)
    → IsBehind d before
    → IsBehind d w
    → IsBehind d (expire t host before w)
expire-IsBehind d (done r) host before w b h = b
expire-IsBehind d absent none before w b h = b
expire-IsBehind d deferred none before w b h = b
expire-IsBehind d running none before w b h = b
expire-IsBehind d absent (some x) before w b h = time_out-IsBehind d x before w b h
expire-IsBehind d deferred (some x) before w b h = time_out-IsBehind d x before w b h
expire-IsBehind d running (some x) before w b h = time_out-IsBehind d x before w b h

gate-begun : (t : Task) → begun t ≡ 1 → begun (run_gate t) ≡ 1
gate-begun absent h = absurd (omega (arith, h))
gate-begun deferred h = absurd (omega (arith, h))
gate-begun running h = refl
gate-begun (done r) h = refl

module _ (rejection : String → Option Result) (equivalent : String → String → Bool) (d : ℕ) where
  pub resume-IsBehind :
      (t : Task) (host : Option Host) (before w : World)
      → IsBehind d before
      → IsBehind d w
      → IsBehind d (resume rejection equivalent t host before w)
  unfolding resume
  resume-IsBehind absent host before w b h = b
  resume-IsBehind deferred host before w b h = b
  resume-IsBehind running host before w b h = b
  resume-IsBehind (done r) none before w b h = b
  resume-IsBehind (done r) (some x) before w b h = record { started = h.started; lags = h.lags }

  start_native_round-IsBehind :
      (w : World) → IsBehind d w → IsBehind d (start_native_round rejection equivalent w)
  unfolding start_native_round
  start_native_round-IsBehind w h = behind (rejection w.config)
    where
      behind : (verdict : Option Result) → IsBehind d (start_behind rejection equivalent verdict w)
      behind (some r) = h
      behind none = record { started = gate-begun w.task h.started; lags = h.lags }

  prepare_behind-IsBehind :
      (verdict : Option Result) (bounded : Bool) (id : ℕ) (w : World)
      → IsBehind d w
      → IsBehind d (prepare_behind rejection equivalent verdict bounded id w)
  prepare_behind-IsBehind (some r) bounded id w h = record { started = h.started; lags = h.lags }
  prepare_behind-IsBehind none bounded id w h =
      let begun' = start_native_round-IsBehind w h in
      record { started = begun'.started; lags = begun'.lags }

  pub prepare_bundle_native-IsBehind :
      (bounded : Bool) (w : World)
      → IsBehind d w
      → IsBehind d (prepare_bundle_native rejection equivalent bounded w)
  unfolding prepare_bundle_native
  prepare_bundle_native-IsBehind bounded w h =
      let called = record w { next_host = w.next_host + 1 } in
      let same : IsBehind d called = record { started = h.started; lags = h.lags } in
      IsBehind-if d (not w.scheduled)
        (answer w.next_host (rejected (result_of "skipped" "not_initialized")) called)
        (prepare_behind rejection equivalent (rejection w.config) bounded w.next_host called)
        (record { started = h.started; lags = h.lags })
        (prepare_behind-IsBehind (rejection w.config) bounded w.next_host called same)

  pub fire_timer-IsBehind :
      (timer : Option ℕ) (w : World)
      → IsBehind d w
      → IsBehind d (fire_timer rejection equivalent timer w)
  unfolding fire_timer
  fire_timer-IsBehind none w h = h
  fire_timer-IsBehind (some delay) w h =
      let off = record w { timer = none } in
      let same : IsBehind d off = record { started = h.started; lags = h.lags } in
      IsBehind-if d (has_js_round rejection equivalent w) off
        (start_native_round rejection equivalent off) same (start_native_round-IsBehind off same)

  pub schedule_native_sync-IsBehind :
      (rollback : String) (w : World) → IsBehind d w → IsBehind d (schedule_native_sync rollback w)
  unfolding schedule_native_sync
  schedule_native_sync-IsBehind rollback w h =
      IsBehind-if d w.scheduled w _ h (record { started = h.started; lags = h.lags })
