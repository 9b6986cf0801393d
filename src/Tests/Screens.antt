-- ===== src/Tests/Screens.antt =====
-- Runs and examples of the screens of the client, crates/tui/src/app.rs.
use hardig.Base.{◌≡◌, refl, arith, pos, true, some, [], ◌∷◌}
use hardig.Runtime.{codes}
use hardig.State.{PositionState}
use hardig.Client.Attempt.{built, ◌>>=◌}
use hardig.Client.Build.Recovery.{form_number, grace_seconds}
use hardig.Client.Enter.{enter_configure_recovery}
use hardig.Client.Enter.Rereads.{grace_seconds-enter_configure_recovery}
use hardig.Client.{App, Screen, can_buy, has_perm}
use hardig.Client.Form.{KeyCode}
use hardig.Client.Form.Keys.{handle_form, edit_key, is_perm_field}
use hardig.Client.Enter.{enter_buy}
use hardig.Client.Enter.Lists.{handle_promo_list}
use hardig.Client.Enter.Ready.{Ready}
use hardig.Client.Enter.Ready.Steps.{ScreenStep, ScreenSteps, screens_stay-Ready}
use hardig.Tests.World.{world, position}
use hardig.Tests.Desk.{desk, reader, node, start}

start-Ready : Ready start
start-Ready = ((omega arith, omega arith, refl), λ h. cc, λ h. cc)

-- The form of a purchase, and a 5 typed behind its 1.
abbrev buying : App
buying = record start {
  screen = Screen.form;
  form_fields = (codes "Amount (SOL)", codes "1") ∷ [];
  input_buf = codes "1";
}

abbrev typed : App
typed = record buying { input_buf = codes "15" }

bought : enter_buy start ≡ buying
unfolding enter_buy
bought = refl

typed_run : handle_form world desk reader node 90 (KeyCode.char b'5') buying ≡ some typed
unfolding handle_form edit_key is_perm_field
typed_run = refl

may_buy : can_buy start ≡ true
unfolding can_buy has_perm
may_buy = refl

screens_stay-Ready_example : Ready typed
screens_stay-Ready_example =
    screens_stay-Ready world desk reader node 90 start typed
      (ScreenSteps.step start buying typed (ScreenStep.buys start buying refl may_buy bought) (
        ScreenSteps.step buying typed typed
          (ScreenStep.types (KeyCode.char b'5') buying typed refl tt typed_run)
          (ScreenSteps.stay typed)))
      start-Ready

-- The cursor of the promotions stays where it is on an empty list.
no_promo_below :
    handle_promo_list world desk reader node KeyCode.down
      (record start { screen = Screen.promo_list })
    ≡ some (record start { screen = Screen.promo_list })
unfolding handle_promo_list
no_promo_below = refl

-- A position whose recovery waits a day, a minute and a second.
abbrev guarded : PositionState
guarded = record position { recovery_asset = 77; recovery_lockout_secs = pos 86461 }

abbrev guarding : App
guarding = record start { position = some guarded }

grace_seconds-enter_configure_recovery_example :
    (form_number (enter_configure_recovery world node guarding).form_fields 1 >>= λ days.
    form_number (enter_configure_recovery world node guarding).form_fields 2 >>= λ hours.
    form_number (enter_configure_recovery world node guarding).form_fields 3 >>= λ minutes.
    grace_seconds days hours minutes)
    ≡ built 86460
grace_seconds-enter_configure_recovery_example =
    grace_seconds-enter_configure_recovery world node guarding guarded 86461 refl refl refl
      (omega arith) (omega arith)
