-- ===== src/LogCalls/Records.antt =====
-- What the wrapper logs: the start record does not depend on redacted arguments, and each call is logged
-- as what it is, without a change of its outcome.
use pydecorators.Prelude.{
  ◌≡◌, refl, Bool, true, false, not, ◌&&◌, Option, none, some, List, [], ◌∷◌, ◌++◌, String,
  if◌then◌else◌, sym, ap,
}
use mathlib.Core.List.{append-nil}
use pydecorators.Prelude.Int.{ℤ, ◌-ℤ◌}
use pydecorators.Prelude.Dict.{Dict}
use pydecorators.Prelude.Effect.{Outcome, returned, raised, Action}
use pydecorators.LogCalls.{
  Config, Record, finished, finished_with_result, failed, Logged, started_record, wrapper,
  log_outcome, log_finished, log_summary, summary_of, emit,
}
use pydecorators.LogCalls.Redaction.{AgreeUnless, AgreeByName, hides, positional_names}

module _ {W V O : Type 0} (config : Config W V O) where
  -- Two calls whose arguments bind, and agree except where they are redacted.
  abbrev pub SameButRedacted : List V × Dict String V → List V × Dict String V → Type 0
  SameButRedacted (args, kwargs) (args', kwargs') =
      AgreeUnless (hides config.redacted_names (positional_names config.signature)) args args'
      × AgreeByName config.redacted_names kwargs kwargs'

  -- The summary of a result: the result itself, or what the summarizer gives for it.
  abbrev pub IsSummary : Option (O → Action W O O) → O → W → O → Type 0
  IsSummary none result w summary = summary ≡ result
  IsSummary (some summarize) result w summary = (summarize result w).0 ≡ returned summary

  -- What is logged of an outcome after the call, which leaves the world `w`.
  abbrev pub IsEnding : ℤ → W → Outcome O O → List (Record V O) → Type 0
  IsEnding duration w (returned result) ending =
      (summary : O) × IsSummary config.summarize_result result w summary
      × (ending
          ≡ (if config.include_result
              then finished_with_result config.level config.name duration summary
              else finished config.level config.name duration)
            ∷ [])
  IsEnding duration w (raised x) ending = ending ≡ (
      if config.is_exception x && config.log_exceptions
      then failed config.name duration ∷ []
      else [])

  -- A summarizer does not raise.
  abbrev pub Summarizes : Type 0
  Summarizes =
      (result : O) (w : W) → (summary : O) × IsSummary config.summarize_result result w summary

  summary_of_lem :
      (summarizer : Option (O → Action W O O)) (result : O) (w : W) (summary : O)
      → IsSummary summarizer result w summary
      → (summary_of config summarizer result w).0 ≡ returned summary
  summary_of_lem none result w summary h = ap returned (sym h)
  summary_of_lem (some summarize) result w summary h = h

  abbrev pub IsLogged :
      ℤ → W → Outcome O O → List (Record V O) → Outcome O O × Logged W V O → Type 0
  IsLogged duration w outcome log done =
      (done.0 ≡ outcome)
      × ((ending : _) × (done.1.1 ≡ log ++ ending) × IsEnding duration w outcome ending)

  log_summary-IsLogged :
      (duration : ℤ) (result summary : O) (w : W) (log : List (Record V O)) (r : Outcome O O × W)
      → config.include_result ≡ true
      → IsSummary config.summarize_result result w summary
      → r.0 ≡ returned summary
      → IsLogged duration w (returned result) log (log_summary config duration result log r)
  log_summary-IsLogged duration result summary w log (returned s, w') shows is h =
      (refl, (_, refl, (summary, is, rw shows (cc h))))
  log_summary-IsLogged duration result summary w log (raised x, w') shows is h = absurd (cc h)

  finished_if :
      (b : Bool) (duration : ℤ) (result : O) (log : List (Record V O)) (w : W)
      → config.include_result ≡ b
      → Summarizes
      → IsLogged duration w (returned result) log (
          if not b
          then (returned result, emit config (finished config.level config.name duration) (w, log))
          else log_summary config duration result log
              (summary_of config config.summarize_result result w))
  finished_if true duration result log w shows summarizes =
      let (summary, is) = summarizes result w in
      log_summary-IsLogged duration result summary w log _ shows is
        (summary_of_lem config.summarize_result result w summary is)
  finished_if false duration result log w conceals summarizes =
      let (summary, is) = summarizes result w in (refl, (_, refl, (summary, is, rw conceals refl)))

  log_finished-IsLogged :
      (duration : ℤ) (result : O) (log : List (Record V O)) (w : W)
      → Summarizes
      → IsLogged duration w (returned result) log (log_finished config duration result (w, log))
  log_finished-IsLogged duration result log w =
      finished_if config.include_result duration result log w refl

  failed_if :
      (b : Bool) (duration : ℤ) (x : O) (log : List (Record V O)) (w : W)
      → (config.is_exception x && config.log_exceptions) ≡ b
      → IsLogged duration w (raised x) log (
          if b
          then (raised x, emit config (failed config.name duration) (w, log))
          else (raised x, (w, log)))
  failed_if true duration x log w fails = (refl, (_, refl, rw fails refl))
  failed_if false duration x log w fails = (refl, ([], sym (append-nil log), rw fails refl))

  log_outcome-IsLogged :
      (duration : ℤ) (log : List (Record V O)) (r : Outcome O O × W)
      → Summarizes
      → IsLogged duration r.1 r.0 log (log_outcome config duration log r)
  log_outcome-IsLogged duration log (returned result, w) summarizes =
      log_finished-IsLogged duration result log w summarizes
  log_outcome-IsLogged duration log (raised x, w) summarizes =
      failed_if (config.is_exception x && config.log_exceptions) duration x log w refl

  -- If the summarizer does not raise, the wrapper gives what the function gives, and logs the start and
  -- then one record: that the call finished, with the summary of the result if results are included, or
  -- that it failed, which is left out if exceptions are not logged or this one is no `Exception`. The
  -- summary is what the summarizer gives for the result, after the call, or without one the result. The
  -- duration is the difference of the two readings of the clock.
  pub wrapper-IsLogged :
      (start end : ℤ) (call : List V × Dict String V) (w : W) (log : List (Record V O))
      → Summarizes
      → IsLogged
          (end -ℤ start)
          (config.func call w).1
          (config.func call w).0
          (log ++ started_record config call ∷ [])
          (wrapper config start end call (w, log))
  unfolding wrapper
  wrapper-IsLogged start end call w log = log_outcome-IsLogged (end -ℤ start) _ (config.func call w)
