-- ===== src/Wizard.antt =====
-- The wizard: the reducer of web/src/pages/WizardFlow/WizardFlow.tsx and `handleSubmit` of
-- steps/RegisterParcelStep.tsx, with the order in which it dispatches.
pub mod Registered
pub mod Walk
use terra_ledger.Base.{
  ℕ, suc, ◌-◌, Bool, true, false, ◌||◌, ◌==◌, if◌then◌else◌, Option, none, some, List, [], ◌∷◌,
  ◌++◌, length, Text, text, includes,
}

pub data WizardPath : Type 0 where
  none_path farmer lender : WizardPath

pub record WizardData : Type 0 where
  pub cadastral : Text
  pub area_ha : ℕ
  pub land_class : ℕ
  pub oblast : Text
  pub ndvi_score : Option ℕ
  pub credit_score : Option ℕ
  pub credit_grade : Option Text
  pub lien_registered : Bool
  pub wallet_address : Option Text

pub record State : Type 0 where
  pub path : WizardPath
  pub step : ℕ
  pub data' : WizardData

-- A partial update is the function that spreads it over the data.
pub data Action : Type 0 where
  select_path : WizardPath → Action
  go_next back restart : Action
  update_data update_and_next : (WizardData → WizardData) → Action
  go_to_step : ℕ → Action

abbrev pub initial_state : State
initial_state = record {
  path = none_path;
  step = 0;
  data' = record {
    cadastral = [];
    area_ha = 0;
    land_class = 2;
    oblast = [];
    ndvi_score = none;
    credit_score = none;
    credit_grade = none;
    lien_registered = false;
    wallet_address = none;
  };
}

unfoldable pub reducer : State → Action → State
reducer state (select_path path) = record state { path = path; step = 0 }
reducer state go_next = record state { step = suc state.step }
reducer state back = record state { step = state.step - 1 }
reducer state (update_data partial) = record state { data' = partial state.data' }
reducer state (update_and_next partial) = record state {
  data' = partial state.data';
  step = suc state.step;
}
reducer state (go_to_step step) = record state { step = step }
reducer state restart = initial_state

unfoldable pub reduce_all : State → List Action → State
unfolding reducer
reduce_all state [] = state
reduce_all state (action ∷ actions) = reduce_all (reducer state action) actions

-- the form of RegisterParcelStep
pub record Form : Type 0 where
  pub cadastral : Text
  pub area_ha : ℕ
  pub land_class : ℕ
  pub oblast : Text

-- Building and sending the instruction: it succeeds, or something is thrown, which has a message if
-- it is an `Error`, and a text.
pub data ChainReply : Type 0 where
  sent : ChainReply
  refused : Option Text → Text → ChainReply

-- What `handleSubmit` leaves: the error shown, what it dispatched, the toasts, and whether it
-- called `registerParcel`.
pub record Submitted : Type 0 where
  pub error : Option Text
  pub actions : List Action
  pub toasts : List Text
  pub registers : Bool

unfoldable pub is_already_registered : Text → Bool
is_already_registered msg =
    includes msg (text "already in use")
    || (includes msg (text "custom program error: 0x0")
        || (includes msg (text "code 0") || includes msg (text "Code: 0")))

abbrev pub or_text : Option Text → Text → Text
or_text none otherwise = otherwise
or_text (some s) otherwise = s

abbrev pub is_missing : Form → Bool
is_missing form = length form.cadastral == 0 || (form.area_ha == 0 || length form.oblast == 0)

abbrev pub fill : Form → WizardData → WizardData
fill form d = record d {
  cadastral = form.cadastral;
  area_ha = form.area_ha;
  land_class = form.land_class;
  oblast = form.oblast;
}

abbrev pub registered_toast : Text
registered_toast = text "Parcel already registered on-chain. Loading profile..."

-- `handleSubmit` behind its check, `none` where there is no extension wallet. The wizard gives the
-- step `onSkipToSummary`.
unfoldable pub submit_filled : Form → Option ChainReply → Submitted
submit_filled form none = record {
  error = none;
  actions = update_data (fill form) ∷ go_next ∷ [];
  toasts = [];
  registers = true;
}
submit_filled form (some sent) = record {
  error = none;
  actions = update_data (fill form) ∷ go_next ∷ [];
  toasts = [];
  registers = true;
}
submit_filled form (some (refused message shown)) =
    let msg = or_text message (text "Failed to register parcel") in
    if is_already_registered (or_text message shown)
    then (record {
      error = none;
      actions = update_data (fill form) ∷ go_to_step 4 ∷ [];
      toasts = registered_toast ∷ [];
      registers = false;
    })
    else (record {
      error = some msg;
      actions = update_data (fill form) ∷ [];
      toasts = msg ∷ [];
      registers = false;
    })

unfoldable pub handle_submit : Form → Option ChainReply → Submitted
handle_submit form reply =
    if is_missing form
    then (record {
      error = some (text "Please fill in all required fields");
      actions = [];
      toasts = [];
      registers = false;
    })
    else submit_filled form reply
