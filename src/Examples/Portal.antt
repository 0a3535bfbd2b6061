-- ===== src/Examples/Portal.antt =====
-- The portal of a farmer, the consent of a wallet, and a wallet that is connected by phone.
use terra_ledger.Base.{false, none, some, ◌≢◌, Text, text, [], refl}
use terra_ledger.Platform.Sample.{sample}
use terra_ledger.SignAndSend.{initial}
use terra_ledger.Pages.Farmer.{RegisterParcelInput, Portal, is_missing, parcel_instruction}
use terra_ledger.Pages.Farmer
use terra_ledger.Pages.FarmerShown.{Handled, handle_submit-Handled}
use terra_ledger.Pages.Consent.{Consent, Dashboard, handle_grant, handle_revoke}
use terra_ledger.Pages.ConsentShown.{Acts, handle_grant-handle_revoke}
use terra_ledger.Deeplink.Connect.{idle, connected}
use terra_ledger.Pages.WalletSetup.{Wallets}
use terra_ledger.Examples.Samples.{kz1, lender}
use terra_ledger.Examples.Clients.{silent, as_it_is, serves, unreachable, signs}

-- A farmer registers the parcel KZ1.
abbrev kz1_form : RegisterParcelInput
kz1_form = record {
  cadastral_number = kz1;
  owner_wallet = lender;
  area_ha = 120;
  land_class = 1;
  oblast = text "Almaty";
  rayon = [];
  holder_name = [];
  holder_iin_hash = [];
}

abbrev portal : Portal Text
portal = record {
  tx = initial;
  parcel = record { data' = none; loading = false; error = none };
  certificates = [];
  certs_loading = false;
}

handle_submit-Handled_example :
    Handled silent as_it_is signs
      (serves (some []))
      unreachable
      (text "{}")
      lender
      kz1_form
      portal
      (parcel_instruction sample lender kz1_form)
      (Farmer.handle_submit silent as_it_is signs
        (serves (some []))
        unreachable
        sample
        (some lender)
        kz1_form
        (text "{}")
        portal)
handle_submit-Handled_example =
    handle_submit-Handled silent as_it_is signs (serves (some [])) unreachable (text "{}") lender
      kz1_form portal sample refl

-- A consent that was granted, and a page that has not read it.
abbrev granted : Consent
granted = record {
  wallet_address = lender;
  status = text "granted";
  granted_at = none;
  revoked_at = none;
}

abbrev unread : Dashboard Text
unread = record { consent = none; access_log = []; loading = false; action_loading = false }

lender_there : lender ≢ []
lender_there = λ e. cc

handle_grant-handle_revoke_example :
    Acts as_it_is
      (serves granted)
      (serves (some []))
      (serves granted)
      (text "{}")
      unread
      (text "/api/v1/consent/grant")
      lender
      (handle_grant as_it_is
        (serves granted)
        (serves (some []))
        (serves granted)
        (text "{}")
        lender
        unread)
    × Acts as_it_is
        (serves granted)
        (serves (some []))
        (serves granted)
        (text "{}")
        unread
        (text "/api/v1/consent/revoke")
        lender
        (handle_revoke as_it_is
          (serves granted)
          (serves (some []))
          (serves granted)
          (text "{}")
          lender
          unread)
handle_grant-handle_revoke_example =
    handle_grant-handle_revoke as_it_is (serves granted) (serves (some [])) (serves granted)
      (text "{}") unread lender lender_there

-- A wallet that the phone connects while the step is shown.
abbrev before_scan : Wallets
before_scan = record {
  extension_connected = false;
  extension_wallet = none;
  status = idle;
  deeplink_wallet = none;
}

abbrev after_scan : Wallets
after_scan = record before_scan { status = connected; deeplink_wallet = some lender }
