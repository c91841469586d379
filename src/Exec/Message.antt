-- ===== src/Exec/Message.antt =====
-- Tests on the text of an exception. That of api/services/event_store.py is
-- `"duplicate key" in str(e).lower() or "E11000" in str(e)`.
use Prim.Native.Char.{code}
use Prim.Native.String.{String}
use event_sourcing_cqrs.Prelude.{
  ℕ, ◌+◌, Bool, true, false, ◌&&◌, ◌||◌, List, [], ◌∷◌, map, leb, ◌==◌, if◌then◌else◌,
}

abbrev codes : String → List ℕ
codes String.[] = []
codes (String.◌∷◌ c s) = code c ∷ codes s

abbrev lower : ℕ → ℕ
lower c = if leb b'A' c && leb c b'Z' then c + 32 else c

abbrev is_prefix : List ℕ → List ℕ → Bool
is_prefix [] text = true
is_prefix (c ∷ cs) [] = false
is_prefix (c ∷ cs) (d ∷ ds) = c == d && is_prefix cs ds

-- `word in text`
abbrev occurs_in : List ℕ → List ℕ → Bool
occurs_in word [] = is_prefix word []
occurs_in word (c ∷ cs) = is_prefix word (c ∷ cs) || occurs_in word cs

unfoldable pub is_duplicate_key : String → Bool
is_duplicate_key text =
    occurs_in (codes "duplicate key") (map lower (codes text))
    || occurs_in (codes "E11000") (codes text)

-- `"already exists" in str(e).lower()`, the test of scripts/setup_localstack.py.
unfoldable pub says_already_exists : String → Bool
says_already_exists text = occurs_in (codes "already exists") (map lower (codes text))
