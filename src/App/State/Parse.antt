-- ===== src/App/State/Parse.antt =====
-- `as_str` and `parse` of app/state.rs.
use network_client.Prelude.{◌≡◌, refl, text_eq}
use network_client.App.State.{ConnState, as_str, parse}

-- The persisted name of a state is read back as that state.
pub parse-as_str : (s : ConnState) → parse (as_str s) ≡ s
unfolding parse as_str text_eq
parse-as_str ConnState.stopped = refl
parse-as_str ConnState.initializing = refl
parse-as_str _ = refl
