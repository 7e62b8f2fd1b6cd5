-- ===== src/Monero/Parse.antt =====
-- Parsers in sequence: a `do` block reads one part after another.
use monero_solo_stratum.Common.{ℕ, Bool, if◌then◌else◌}
use monero_solo_stratum.Common.Outcome.{ok, throw}
use monero_solo_stratum.Common.Outcome
use monero_solo_stratum.Monero.Reader.{MoneroParseError, Parser, remaining}

infixl 5 ◌>>=◌ ◌>>◌
unfoldable pub ◌>>=◌ : {A B : Type 0} → Parser A → (A → Parser B) → Parser B
◌>>=◌ p f r = Outcome.◌>>=◌ (p r) (λ (a, r'). f a r')

abbrev pub ◌>>◌ : {B : Type 0} → Parser (Unit {0}) → Parser B → Parser B
p >> q = p >>= λ _. q

unfoldable pub pure : {A : Type 0} → A → Parser A
pure a r = ok (a, r)

unfoldable pub fail : {A : Type 0} → MoneroParseError → Parser A
fail e r = throw e

-- `if (test) throw e;`
unfoldable pub fail_if : Bool → MoneroParseError → Parser (Unit {0})
unfolding pure fail
fail_if b e = if b then fail e else pure tt

-- `reader.position()` and `reader.remaining()`
unfoldable pub get_position : Parser ℕ
get_position r = ok (r.position, r)

unfoldable pub get_remaining : Parser ℕ
get_remaining r = ok (remaining r, r)
