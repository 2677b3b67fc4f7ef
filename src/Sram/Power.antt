-- ===== src/Sram/Power.antt =====
-- run_experiment.py: the transition between two captures. What is done to the board is a list of
-- actions; whether each raises, and whether `shlex.split` does, is an argument, and so is `float`.
use wireless_boot_entropy_ze.Base.{
  ◌≡◌, ◌≢◌, refl, Bool, true, false, ◌||◌, Option, none, some, List, [], ◌∷◌, ◌++◌, if◌then◌else◌,
  list_beq, nat_eq, if_keeps,
}
use wireless_boot_entropy_ze.Python.Result.{Result, ok, err, value_error, runtime_error, ◌>>=◌}
use wireless_boot_entropy_ze.Python.Text.{Text, codes, starts_with, split_once}
use wireless_boot_entropy_ze.Aeb.Trial.{Time}

pub data Action : Type 0 where
  pulse_en close_port power_off power_on wait_for_device open_serial : Action
  sleep : Time → Action

-- A statement that gives no value.
abbrev pub Went : Type 0
Went = Result {0} Unit

-- Whether each action goes through, and whether `shlex.split` accepts each command.
pub record Outcomes : Type 0 where
  pub off_split : Went
  pub on_split : Went
  pub pulse : Went
  pub off : Went
  pub slept : Went
  pub on : Went
  pub waited : Went
  pub opened_port : Went

-- What was done, and how it ended.
abbrev pub Done : Type 0
Done = List Action × Went

-- An action, and what follows it where it does not raise.
abbrev pub act : Action → Went → Done → Done
act a (ok done) rest = (a ∷ rest.0, rest.1)
act a (err e) rest = (a ∷ [], err e)

-- A statement that is no action, and what follows it where it does not raise.
abbrev pub went_then : Went → Done → Done
went_then (ok done) rest = rest
went_then (err e) rest = ([], err e)

-- `try: body finally: last`, and what follows: the second block is run in any case, and an exception of
-- it takes the place of the body's.
abbrev pub finally_then : Done → Done → Done → Done
finally_then body (last, err e) rest = (body.0 ++ last, err e)
finally_then (actions, err e) (last, ok done) rest = (actions ++ last, err e)
finally_then (actions, ok finished) (last, ok done) rest = (actions ++ last ++ rest.0, rest.1)

abbrev pub nothing_done : Done
nothing_done = ([], ok tt)

abbrev pub behind_dash : Option (Text × Text) → Text
behind_dash none = []
behind_dash (some (front, behind)) = behind

abbrev pub is_empty : Text → Bool
is_empty [] = true
is_empty (c ∷ s) = false

abbrev pub or_switch : Option Bool → Bool → Option Bool
or_switch none b = some b
or_switch (some later) b = some later

-- Whether the power was last switched on or off.
abbrev pub last_switch : List Action → Option Bool
last_switch [] = none
last_switch (power_off ∷ actions) = or_switch (last_switch actions) false
last_switch (power_on ∷ actions) = or_switch (last_switch actions) true
last_switch (a ∷ actions) = last_switch actions

module _ (float_of : Text → Result Time) where
  unfoldable pub power_duration : Text → Result (Option Time)
  unfolding starts_with split_once
  power_duration condition =
      if list_beq condition (codes "rts")
      then ok none
      else if starts_with (codes "power-") condition
      then (do seconds ← float_of (behind_dash (split_once b'-' condition)); ok (some seconds))
      else err value_error

  abbrev pub cycle : Time → Outcomes → Done
  cycle duration o = act close_port (ok tt) (
      went_then o.off_split (
        act power_off o.off (
          finally_then (act (sleep duration) o.slept nothing_done)
            (went_then o.on_split (act power_on o.on nothing_done))
            (act wait_for_device o.waited (act open_serial o.opened_port nothing_done)))))

  abbrev pub transition_for : Result (Option Time) → Text → Text → Outcomes → Done
  transition_for (err e) off_command on_command o = ([], err e)
  transition_for (ok none) off_command on_command o = act pulse_en o.pulse nothing_done
  transition_for (ok (some duration)) off_command on_command o =
      if is_empty off_command || is_empty on_command
      then ([], err runtime_error)
      else cycle duration o

  -- The condition, the two commands for the power, and how each action goes.
  unfoldable pub perform_transition : Text → Text → Text → Outcomes → Done
  unfolding power_duration
  perform_transition condition off_command on_command o =
      transition_for (power_duration condition) off_command on_command o

  -- What is done once both commands are split and the power is off.
  abbrev powered_again : Time → Went → Went → Went → Went → Done
  powered_again duration slept on waited opened = act close_port (ok tt) (
      act power_off (ok tt) (
        finally_then (act (sleep duration) slept nothing_done) (act power_on on nothing_done)
          (act wait_for_device waited (act open_serial opened nothing_done))))

  powered_again-on :
      (duration : Time) (slept on waited opened : Went)
      → last_switch (powered_again duration slept on waited opened).0 ≡ some true
  powered_again-on duration (err e) (err f) waited opened = refl
  powered_again-on duration (ok s) (err f) waited opened = refl
  powered_again-on duration (err e) (ok f) waited opened = refl
  powered_again-on duration (ok s) (ok f) (err e) opened = refl
  powered_again-on duration (ok s) (ok f) (ok w) (err e) = refl
  powered_again-on duration (ok s) (ok f) (ok w) (ok p) = refl

  cycle-on :
      (duration : Time) (o : Outcomes)
      → o.off ≡ ok tt
      → o.on_split ≡ ok tt
      → last_switch (cycle duration o).0 ≢ some false
  cycle-on duration o off split = rw (off, split) (split_first o.off_split)
    where
      split_first :
          (first : Went)
          → last_switch
              (act close_port (ok tt) (
                went_then first (
                  act power_off (ok tt) (
                    finally_then
                      (act (sleep duration) o.slept nothing_done)
                      (act power_on o.on nothing_done)
                      (act wait_for_device o.waited
                        (act open_serial o.opened_port nothing_done)))))).0
            ≢ some false
      split_first (err e) left_off = cc
      split_first (ok done) left_off =
          let on = powered_again-on duration o.slept o.on o.waited o.opened_port in cc

  transition_for-on :
      (asked : Result (Option Time)) (off_command on_command : Text) (o : Outcomes)
      → o.off ≡ ok tt
      → o.on_split ≡ ok tt
      → last_switch (transition_for asked off_command on_command o).0 ≢ some false
  transition_for-on (err e) off_command on_command o off split = λ left_off. cc
  transition_for-on (ok none) off_command on_command o off split = pulsed o.pulse
    where
      pulsed : (r : Went) → last_switch (act pulse_en r nothing_done).0 ≢ some false
      pulsed (ok done) left_off = cc
      pulsed (err e) left_off = cc
  transition_for-on (ok (some duration)) off_command on_command o off split =
      if_keeps (λ (d : Done). last_switch d.0 ≢ some false)
        (is_empty off_command || is_empty on_command) ([], err runtime_error) (cycle duration o)
        (λ left_off. cc) (cycle-on duration o off split)

  -- Where the command that switches the power off goes through, and `shlex.split` accepts the command
  -- that switches it on, the last of the two commands that is called is not the one that switches it
  -- off, whatever else raises; the command that switches it on may itself fail.
  pub perform_transition-on :
      (condition off_command on_command : Text) (o : Outcomes)
      → o.off ≡ ok tt
      → o.on_split ≡ ok tt
      → last_switch (perform_transition condition off_command on_command o).0 ≢ some false
  unfolding perform_transition
  perform_transition-on condition off_command on_command o off split =
      transition_for-on (power_duration condition) off_command on_command o off split
