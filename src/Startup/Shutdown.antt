-- ===== src/Startup/Shutdown.antt =====
-- How the server stops: the handlers of signals in server/src/main.ts and the telemetry of
-- server/src/telemetry.ts. Telemetry is the number of the running exporter, if there is one.
use study_room_sdk.Base.{
  ℕ, ◌≡◌, ◌+◌, refl, Bool, true, false, List, [], ◌∷◌, Option, none, some, if◌then◌else◌,
}
use study_room_sdk.Domain.{Text}

pub record Telemetry : Type 0 where
  pub sdk : Option ℕ
  pub stopping : Bool
  pub stopped : List ℕ

-- `startTelemetry`, with the exporter that it would make; without an endpoint, or with a running
-- exporter, it makes none.
unfoldable pub start_telemetry : Option Text → ℕ → Telemetry → Telemetry
start_telemetry (some (c ∷ endpoint)) made t = record t {
  sdk = elim t.sdk [ none ↦ some made | some old ↦ some old ];
}
start_telemetry _ made t = t

abbrev shut_down : Option ℕ → List ℕ → List ℕ
shut_down none stopped = stopped
shut_down (some n) stopped = n ∷ stopped

-- `stopTelemetry`, up to its promise: an exporter is shut down once.
unfoldable pub stop_telemetry : Telemetry → Telemetry
stop_telemetry t =
    if t.stopping
    then t
    else record { sdk = none; stopping = true; stopped = shut_down t.sdk t.stopped }

-- What `finally` does when the exporter has answered
unfoldable pub telemetry_stopped : Telemetry → Telemetry
telemetry_stopped t = record t { stopping = false }

-- Whether the promise of `stopTelemetry` is kept; without an exporter there is nothing to wait for.
abbrev answered : Telemetry → Bool → Bool
answered t exporter =
    if t.stopping then exporter else elim t.sdk [ none ↦ true | some n ↦ exporter ]

-- The process: whether `shutdown` has been called, how often `app.close` was, and its exit code
pub record Process : Type 0 where
  pub shutting_down : Bool
  pub closed : ℕ
  pub exit_code : ℕ
  pub telemetry : Telemetry

-- The body of `shutdown`, with whether `app.close` and the exporter, if it is asked, succeed
unfoldable pub close_all : Bool → Bool → Process → Process
unfolding stop_telemetry telemetry_stopped
close_all false exporter p = record p { shutting_down = true; closed = p.closed + 1; exit_code = 1 }
close_all true exporter p = record {
  shutting_down = true;
  closed = p.closed + 1;
  exit_code = if answered p.telemetry exporter then p.exit_code else 1;
  telemetry = telemetry_stopped (stop_telemetry p.telemetry);
}

-- `shutdown`, for a signal
unfoldable pub shutdown : Bool → Bool → Process → Process
unfolding close_all
shutdown closes exporter p = if p.shutting_down then p else close_all closes exporter p

unfoldable pub signals : List (Bool × Bool) → Process → Process
unfolding shutdown
signals [] p = p
signals ((closes, exporter) ∷ rest) p = signals rest (shutdown closes exporter p)

signals_later :
    (rest : List (Bool × Bool)) (p : Process) → p.shutting_down ≡ true → signals rest p ≡ p
unfolding signals
signals_later [] p h = refl
signals_later ((closes, exporter) ∷ rest) p h =
    let same : shutdown closes exporter p ≡ p = unfold shutdown in rw h refl in
    rw same (signals_later rest p h)

-- However many signals come, the first one closes the server and stops its telemetry, once.
pub signals_close_once :
    (closes exporter : Bool) (rest : List (Bool × Bool)) (p : Process)
    → p.shutting_down ≡ false
    → signals ((closes, exporter) ∷ rest) p ≡ close_all closes exporter p
unfolding signals
signals_close_once closes exporter rest p h =
    let first : shutdown closes exporter p ≡ close_all closes exporter p =
      unfold shutdown in rw h refl in
    rw first (signals_later rest (close_all closes exporter p) (begun closes exporter p))
  where
    begun :
        (closes exporter : Bool) (p : Process) → (close_all closes exporter p).shutting_down ≡ true
    begun false exporter p = unfold close_all in refl
    begun true exporter p = unfold close_all in refl
