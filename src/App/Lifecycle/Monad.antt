-- ===== src/App/Lifecycle/Monad.antt =====
-- `?` over a state: the first error ends the operation, with the state that it has by then.
use network_client.Prelude.{SvcResult, ok, err, SvcError}
use network_client.App.Lifecycle.State.{ConnectionManager}

abbrev pub M : Type 0 → Type 0
M A = ConnectionManager → ConnectionManager × SvcResult A

abbrev pub bind_from :
    {A B : Type 0} → (A → M B) → ConnectionManager × SvcResult A → ConnectionManager × SvcResult B
bind_from f (m, ok a) = f a m
bind_from f (m, err e) = (m, err e)

infixl 5 ◌>>=◌ ◌>>◌
abbrev pub ◌>>=◌ : {A B : Type 0} → M A → (A → M B) → M B
◌>>=◌ step f m = bind_from f (step m)

abbrev pub ◌>>◌ : {B : Type 0} → M (Unit {0}) → M B → M B
step >> next = step >>= λ _. next

abbrev pub pure : {A : Type 0} → A → M A
pure a m = (m, ok a)

abbrev pub throw : {A : Type 0} → SvcError → M A
throw e m = (m, err e)

abbrev pub modify : (ConnectionManager → ConnectionManager) → M (Unit {0})
modify f m = (f m, ok tt)
