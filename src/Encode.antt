-- ===== src/Encode.antt =====
-- `encoding/base64` and `encoding/base32` without padding, on bytes.
use Prim.Native.String.{[], ◌∷◌}
use lib_agent_oauth.Prelude.{ℕ, zero, suc, ◌+◌, ◌*◌, ◌/◌, ◌%◌, Char, String, List}
use lib_agent_oauth.Prelude
use lib_agent_oauth.Text.{take}

-- The n-th character of an alphabet; `0` stands for a number that no alphabet has.
unfoldable pub digit : String → ℕ → Char
digit [] n = "0"
digit (c ∷ s) zero = c
digit (c ∷ s) (suc n) = digit s n

abbrev pub base64_url : String
base64_url = "ABCDEFGHIJKLMNOPQRSTUVWXYZabcdefghijklmnopqrstuvwxyz0123456789-_"

-- pairing.go's `crockford`
abbrev crockford : String
crockford = "0123456789ABCDEFGHJKMNPQRSTVWXYZ"

abbrev pub d64 : ℕ → Char
d64 n = digit base64_url (n % 64)

abbrev d32 : ℕ → Char
d32 n = digit crockford (n % 32)

-- `base64.RawURLEncoding.EncodeToString`
unfoldable pub encode64 : List ℕ → String
unfolding digit
encode64 Prelude.[] = ""
encode64 (Prelude.◌∷◌ a Prelude.[]) = d64 (a / 4) ∷ d64 (a * 16) ∷ ""
encode64 (Prelude.◌∷◌ a (Prelude.◌∷◌ b Prelude.[])) =
    d64 (a / 4) ∷ d64 (a * 16 + b / 16) ∷ d64 (b * 4) ∷ ""
encode64 (Prelude.◌∷◌ a (Prelude.◌∷◌ b (Prelude.◌∷◌ c rest))) =
    d64 (a / 4) ∷ d64 (a * 16 + b / 16) ∷ d64 (b * 4 + c / 64) ∷ d64 c ∷ encode64 rest

-- The eight digits that five bytes have.
abbrev block32 : ℕ → ℕ → ℕ → ℕ → ℕ → String → String
block32 a b c d e rest =
    d32 (a / 8)
    ∷ d32 (a * 4 + b / 64)
    ∷ d32 (b / 2)
    ∷ d32 (b * 16 + c / 16)
    ∷ d32 (c * 2 + d / 128)
    ∷ d32 (d / 4)
    ∷ d32 (d * 8 + e / 32)
    ∷ d32 e
    ∷ rest

-- `crockEnc.EncodeToString`: an incomplete block has the digits that its bytes reach.
unfoldable pub encode32 : List ℕ → String
unfolding digit take
encode32 Prelude.[] = ""
encode32 (Prelude.◌∷◌ a Prelude.[]) = take 2 (block32 a 0 0 0 0 "")
encode32 (Prelude.◌∷◌ a (Prelude.◌∷◌ b Prelude.[])) = take 4 (block32 a b 0 0 0 "")
encode32 (Prelude.◌∷◌ a (Prelude.◌∷◌ b (Prelude.◌∷◌ c Prelude.[]))) = take 5 (block32 a b c 0 0 "")
encode32 (Prelude.◌∷◌ a (Prelude.◌∷◌ b (Prelude.◌∷◌ c (Prelude.◌∷◌ d Prelude.[])))) =
    take 7 (block32 a b c d 0 "")
encode32 (Prelude.◌∷◌ a (Prelude.◌∷◌ b (Prelude.◌∷◌ c (Prelude.◌∷◌ d (Prelude.◌∷◌ e rest))))) =
    block32 a b c d e (encode32 rest)
