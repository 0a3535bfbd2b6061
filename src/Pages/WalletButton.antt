-- ===== src/Pages/WalletButton.antt =====
-- The handlers of web/src/components/WalletButton/WalletButton.tsx. The wallets that it lists, and
-- what `connect` and `disconnect` of the wallet library come to, are left out.
use terra_ledger.Base.{
  ◌||◌, if◌then◌else◌, ◌≡◌, Outcome, ok, throws, Option, none, some, ◌++◌, Text, text, length, drop,
  take, ◌-◌, is_some,
}
use terra_ledger.Deeplink.{Storage, present}
use terra_ledger.Deeplink.Sessions.{Stores, no_connection, connection}

pub data MenuState : Type 0 where
  idle select_wallet account_menu : MenuState

-- the state of the component, with the address of the connected wallet, and `localStorage`
pub record WalletButton : Type 0 where
  pub menu : MenuState
  pub wallet : Option Text
  pub deeplink_wallet : Option Text
  pub storage : Storage

-- `addr.slice(0, 4)` and `addr.slice(-4)`
unfoldable pub format_address : Text → Text
format_address addr = take 4 addr ++ (text "..." ++ drop (length addr - 4) addr)

-- the function that runs at a change of the storage and every second
unfoldable pub check : WalletButton → WalletButton
check button = record button { deeplink_wallet = button.storage.wallet }

unfoldable pub close : WalletButton → WalletButton
close button = record button { menu = idle }

abbrev toggle_account : MenuState → MenuState
toggle_account idle = account_menu
toggle_account select_wallet = account_menu
toggle_account account_menu = idle

abbrev toggle_select : MenuState → MenuState
toggle_select idle = select_wallet
toggle_select select_wallet = idle
toggle_select account_menu = select_wallet

unfoldable pub handle_button_click : WalletButton → WalletButton
handle_button_click button =
    if is_some button.wallet || is_some (present button.deeplink_wallet)
    then record button { menu = toggle_account button.menu }
    else record button { menu = toggle_select button.menu }

unfoldable pub handle_deeplink_disconnect : WalletButton → WalletButton
unfolding close
handle_deeplink_disconnect button = close (record button {
  storage = record button.storage { wallet = none; session = none };
  deeplink_wallet = none;
})

-- Before `connect` and `disconnect` of the wallet library; a click outside closes the menu as well.
unfoldable pub handle_connect : WalletButton → WalletButton
unfolding close
handle_connect button = close button

unfoldable pub handle_disconnect : WalletButton → WalletButton
unfolding close
handle_disconnect button = close button

-- with what `disconnect` comes to
unfoldable pub handle_switch_wallet : {A : Type 0} → Outcome A → WalletButton → WalletButton
handle_switch_wallet (ok done) button = record button { menu = select_wallet }
handle_switch_wallet (throws x) button = button

-- what `handleCopy` writes to the clipboard
unfoldable pub copied_address : WalletButton → Option Text
copied_address button = elim button.wallet [
  | some address ↦ present (some address)
  | none ↦ present button.deeplink_wallet
]

-- Behind a connection the handler leaves a part of it.
handle_deeplink_disconnect-Stores :
    (button : WalletButton) (p : Text)
    → button.storage.pubkey ≡ some p
    → Stores (handle_deeplink_disconnect button).storage
    → ⊥
unfolding handle_deeplink_disconnect
handle_deeplink_disconnect-Stores button p there (no_connection w s k) = cc
handle_deeplink_disconnect-Stores button p there (connection w s k a b c) = cc
