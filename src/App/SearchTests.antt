-- ===== src/App/SearchTests.antt =====
-- The cases of internal/app/testdata/search_cases.json, and runs of the search at concrete inputs.
use models_db.Prelude.{
  ℕ, ◌≡◌, ◌↔◌, ◌⊎◌, refl, Bool, true, false, not, ◌&&◌, List, [], ◌∷◌, map, All, Some,
  if◌then◌else◌, nat_eqb,
}
use models_db.Prelude.Text.{codes, codes_eqb}
use models_db.Prelude.Runes.{Runes, Unicode, lower, has_part}
use models_db.App.Search.{SearchTerm, SearchExpr, parse_search, matches, quote}
use models_db.App.Search.Loop.{Reads, parse_search-Reads}
use models_db.App.Search.Meaning.{IsMet, matches_iff}
use models_db.App.Search.Written.{write_search, IsWritable, parse_search-write_search}

program : Unit {0}
unfolding parse_search matches write_search codes lower codes_eqb has_part
program = tt

-- The capitals of Latin-1, as far as the cases need them.
abbrev latin : Unicode
latin = record {
  lower_beyond = λ c. if nat_eqb c 0xc9 then 0xe9 else c;
  fold_beyond = λ c. if nat_eqb c 0xe9 then 0xc9 else c;
  letter_beyond = λ c. nat_eqb c 0xe9;
  digit_beyond = λ c. false;
}

abbrev Case : Type 0
Case = Runes × List Runes × Bool

abbrev passes : List Case → Bool
passes [] = true
passes ((text, members, want) ∷ cases) =
    (if matches latin (parse_search latin text) members then want else not want) && passes cases

abbrev cases_0 : List Case
cases_0 =
    ((codes ""), (codes "OpenAI: GPT-4o (2024-08-06)" ∷ []), true)
    ∷ ((codes "   "), (codes "OpenAI: GPT-4o (2024-08-06)" ∷ []), true)
    ∷ ((codes "gpt"), (codes "OpenAI: GPT-4o (2024-08-06)" ∷ []), true)
    ∷ ((codes "GPT"), (codes "OpenAI: GPT-4o (2024-08-06)" ∷ []), true)
    ∷ ((codes "openai 4o"), (codes "OpenAI: GPT-4o (2024-08-06)" ∷ []), true)
    ∷ ((codes "4o openai"), (codes "OpenAI: GPT-4o (2024-08-06)" ∷ []), true)
    ∷ ((codes "openai 5o"), (codes "OpenAI: GPT-4o (2024-08-06)" ∷ []), false)
    ∷ ((codes "openai: gpt"), (codes "OpenAI: GPT-4o (2024-08-06)" ∷ []), true)
    ∷ ((codes "(2024-08-06)"), (codes "OpenAI: GPT-4o (2024-08-06)" ∷ []), true)
    ∷ ((codes "a/b"), (codes "x a/b y" ∷ []), true)
    ∷ ((codes "\"openai 4o\""), (codes "OpenAI: GPT-4o (2024-08-06)" ∷ []), false)
    ∷ ((codes "\"openai: gpt-4o\""), (codes "OpenAI: GPT-4o (2024-08-06)" ∷ []), true)
    ∷ ((codes "\"OPENAI: GPT\""), (codes "OpenAI: GPT-4o (2024-08-06)" ∷ []), true)
    ∷ ((codes "\"gpt-4o\" openai"), (codes "OpenAI: GPT-4o (2024-08-06)" ∷ []), true)
    ∷ ((codes "\"gpt-4o"), (codes "OpenAI: GPT-4o (2024-08-06)" ∷ []), true)
    ∷ ((codes "\"gpt-4o (2024-08-06)"), (codes "OpenAI: GPT-4o (2024-08-06)" ∷ []), true)
    ∷ ((codes "\"gpt-4o (2024-08-07)"), (codes "OpenAI: GPT-4o (2024-08-06)" ∷ []), false)
    ∷ ((codes "\"\""), (codes "OpenAI: GPT-4o (2024-08-06)" ∷ []), true)
    ∷ ((codes "\"\" gpt"), (codes "OpenAI: GPT-4o (2024-08-06)" ∷ []), true)
    ∷ ((codes "\"\" zzz"), (codes "OpenAI: GPT-4o (2024-08-06)" ∷ []), false)
    ∷ ((codes "\""), (codes "OpenAI: GPT-4o (2024-08-06)" ∷ []), true)
    ∷ ((codes "\" \""), (codes "OpenAI: GPT-4o (2024-08-06)" ∷ []), true)
    ∷ ((codes "\"a  b\""), (codes "a  b" ∷ []), true)
    ∷ ((codes "\"a  b\""), (codes "a b" ∷ []), false)
    ∷ ((codes "gpt !mini"), (codes "OpenAI: GPT-4o (2024-08-06)" ∷ []), true)
    ∷ ((codes "gpt !mini"), (codes "OpenAI: GPT-4o mini" ∷ []), false)
    ∷ ((codes "!mini"), (codes "OpenAI: GPT-4o mini" ∷ []), false)
    ∷ ((codes "!mini"), (codes "OpenAI: GPT-4o (2024-08-06)" ∷ []), true)
    ∷ ((codes "!"), (codes "OpenAI: GPT-4o (2024-08-06)" ∷ []), true)
    ∷ ((codes "! gpt"), (codes "OpenAI: GPT-4o (2024-08-06)" ∷ []), true)
    ∷ ((codes "! zzz"), (codes "OpenAI: GPT-4o (2024-08-06)" ∷ []), false)
    ∷ ((codes "gpt!"), (codes "OpenAI: GPT-4o (2024-08-06)" ∷ []), false)
    ∷ ((codes "a!b"), (codes "xa!by" ∷ []), true)
    ∷ ((codes "a!b"), (codes "ab" ∷ []), false)
    ∷ ((codes "!\"gpt-4o\""), (codes "OpenAI: GPT-4o (2024-08-06)" ∷ []), false)
    ∷ ((codes "!\"gpt-4p\""), (codes "OpenAI: GPT-4o (2024-08-06)" ∷ []), true)
    ∷ ((codes "\"!x\""), (codes "has !x here" ∷ []), true)
    ∷ ((codes "\"!x\""), (codes "has x here" ∷ []), false)
    ∷ ((codes "!!x"), (codes "a !x b" ∷ []), false)
    ∷ ((codes "!!x"), (codes "a b" ∷ []), true)
    ∷ []

test_cases_0 : passes cases_0 ≡ true
unfolding program
test_cases_0 = refl

abbrev cases_1 : List Case
cases_1 =
    ((codes "!AND"), (codes "a b" ∷ []), true)
    ∷ ((codes "!AND"), (codes "a AND b" ∷ []), false)
    ∷ ((codes "!mini"), ([]), true)
    ∷ ((codes "!mini"), (codes "" ∷ []), true)
    ∷ ((codes "mini"), ([]), false)
    ∷ ((codes "mini"), (codes "" ∷ []), false)
    ∷ ((codes "!a !b"), ([]), true)
    ∷ ((codes "!a b"), ([]), false)
    ∷ ((codes "openai AND gpt"), (codes "OpenAI: GPT-4o (2024-08-06)" ∷ []), true)
    ∷ ((codes "openai AND zzz"), (codes "OpenAI: GPT-4o (2024-08-06)" ∷ []), false)
    ∷ ((codes "openai OR zzz"), (codes "OpenAI: GPT-4o (2024-08-06)" ∷ []), true)
    ∷ ((codes "zzz OR openai"), (codes "OpenAI: GPT-4o (2024-08-06)" ∷ []), true)
    ∷ ((codes "zzz OR yyy"), (codes "OpenAI: GPT-4o (2024-08-06)" ∷ []), false)
    ∷ ((codes "a b OR c"), (codes "a b" ∷ []), true)
    ∷ ((codes "a b OR c"), (codes "c" ∷ []), true)
    ∷ ((codes "a b OR c"), (codes "a" ∷ []), false)
    ∷ ((codes "a OR b c"), (codes "b" ∷ []), false)
    ∷ ((codes "a OR b c"), (codes "b c" ∷ []), true)
    ∷ ((codes "a OR b c"), (codes "a" ∷ []), true)
    ∷ ((codes "and"), (codes "OpenAI: GPT-4o (2024-08-06)" ∷ []), false)
    ∷ ((codes "and or"), (codes "rock and roll or not" ∷ []), true)
    ∷ ((codes "and or"), (codes "rock and roll" ∷ []), false)
    ∷ ((codes "openai or gpt"), (codes "OpenAI: GPT-4o (2024-08-06)" ∷ []), false)
    ∷ ((codes "\"AND\""), (codes "a AND b" ∷ []), true)
    ∷ ((codes "\"OR\""), (codes "a b" ∷ []), false)
    ∷ ((codes "ANDY"), (codes "Andy here" ∷ []), true)
    ∷ ((codes "OR"), (codes "x" ∷ []), true)
    ∷ ((codes "AND"), (codes "x" ∷ []), true)
    ∷ ((codes "AND OR AND"), (codes "x" ∷ []), true)
    ∷ ((codes "OR gpt"), (codes "OpenAI: GPT-4o (2024-08-06)" ∷ []), true)
    ∷ ((codes "OR zzz"), (codes "OpenAI: GPT-4o (2024-08-06)" ∷ []), false)
    ∷ ((codes "gpt OR"), (codes "OpenAI: GPT-4o (2024-08-06)" ∷ []), true)
    ∷ ((codes "zzz OR"), (codes "OpenAI: GPT-4o (2024-08-06)" ∷ []), false)
    ∷ ((codes "gpt OR OR zzz"), (codes "OpenAI: GPT-4o (2024-08-06)" ∷ []), true)
    ∷ ((codes "zzz OR OR yyy"), (codes "OpenAI: GPT-4o (2024-08-06)" ∷ []), false)
    ∷ ((codes "AND gpt"), (codes "OpenAI: GPT-4o (2024-08-06)" ∷ []), true)
    ∷ ((codes "gpt AND AND 4o"), (codes "OpenAI: GPT-4o (2024-08-06)" ∷ []), true)
    ∷ ((codes "gpt AND"), (codes "OpenAI: GPT-4o (2024-08-06)" ∷ []), true)
    ∷ ((codes "gpt AND !mini"), (codes "OpenAI: GPT-4o (2024-08-06)" ∷ []), true)
    ∷ ((codes "gpt OR !mini"), (codes "OpenAI: GPT-4o mini" ∷ []), true)
    ∷ []

test_cases_1 : passes cases_1 ≡ true
unfolding program
test_cases_1 = refl

abbrev cases_2 : List Case
cases_2 =
    ((codes "zzz OR !mini"), (codes "OpenAI: GPT-4o mini" ∷ []), false)
    ∷ ((codes "!mini OR !gpt"), (codes "OpenAI: GPT-4o (2024-08-06)" ∷ []), true)
    ∷ ((codes "claude OR gemini"), (codes "Google: Gemini 2.5" ∷ []), true)
    ∷ ((codes "claude OR gemini"), (codes "Anthropic: Claude 4" ∷ []), true)
    ∷ ((codes "claude OR gemini"), (codes "OpenAI: GPT" ∷ []), false)
    ∷ ((codes "\"a b\" OR \"c d\""), (codes "x c d y" ∷ []), true)
    ∷ ((codes "\"a b\" OR \"c d\""), (codes "x c y d" ∷ []), false)
    ∷ ((codes "text"), (codes "text" ∷ codes "image" ∷ codes "audio" ∷ []), true)
    ∷ ((codes "text image"), (codes "text" ∷ codes "image" ∷ codes "audio" ∷ []), true)
    ∷ ((codes "text video"), (codes "text" ∷ codes "image" ∷ codes "audio" ∷ []), false)
    ∷ ((codes "\"text image\""), (codes "text" ∷ codes "image" ∷ codes "audio" ∷ []), false)
    ∷ ((codes "\"mage\""), (codes "text" ∷ codes "image" ∷ codes "audio" ∷ []), true)
    ∷ ((codes "!video"), (codes "text" ∷ codes "image" ∷ codes "audio" ∷ []), true)
    ∷ ((codes "!image"), (codes "text" ∷ codes "image" ∷ codes "audio" ∷ []), false)
    ∷ ((codes "text !image"), (codes "text" ∷ codes "image" ∷ codes "audio" ∷ []), false)
    ∷ ((codes "text !video"), (codes "text" ∷ codes "image" ∷ codes "audio" ∷ []), true)
    ∷ ((codes "video OR audio"), (codes "text" ∷ codes "image" ∷ codes "audio" ∷ []), true)
    ∷ ((codes "!video"), ([]), true)
    ∷ ((codes "text"), ([]), false)
    ∷ ((codes "!video !audio"), ([]), true)
    ∷ ((codes "!video !audio"), (codes "text" ∷ codes "image" ∷ codes "audio" ∷ []), false)
    ∷ ((codes "x OR !video"), ([]), true)
    ∷ ((codes "repo/"), (codes "github.com/repo/y" ∷ []), true)
    ∷ ((codes "/"), (codes "github.com/x/y" ∷ []), true)
    ∷ ((codes "/"), (codes "nothing" ∷ []), false)
    ∷ ((codes "-4B"), (codes "pplx-embed-v1 -4B" ∷ []), true)
    ∷ ((codes "a,b"), (codes "a,b" ∷ []), true)
    ∷ ((codes "not:x"), (codes "not:x" ∷ []), true)
    ∷ ((codes "a\tb"), (codes "b a" ∷ []), true)
    ∷ (((233 ∷ [])), ((67 ∷ 65 ∷ 70 ∷ 201 ∷ []) ∷ []), true)
    ∷ (((160 ∷ 120 ∷ [])), (codes "x" ∷ []), false)
    ∷ ((codes "ab\"c"), (codes "xab\"cx" ∷ []), true)
    ∷ ((codes "\"a\"b"), (codes "ab" ∷ []), true)
    ∷ ((codes "\"a\"b"), (codes "a" ∷ []), false)
    ∷ []

test_cases_2 : passes cases_2 ≡ true
unfolding program
test_cases_2 = refl

abbrev box : Runes
box = codes "gpt !mini OR \"open ai\" AND x"

parse_search-Reads_example : Reads latin box [] (parse_search latin box)
parse_search-Reads_example = parse_search-Reads latin box

abbrev two_groups : SearchExpr
two_groups =
    (record { text = codes "gpt"; negated = false }
      ∷ record { text = codes "mini"; negated = true }
      ∷ [])
    ∷ (record { text = codes "open ai"; negated = false } ∷ [])
    ∷ []

matches_iff_example :
    (matches latin two_groups (codes "GPT-4o" ∷ []) ≡ true)
    ↔ ((two_groups ≡ []) ⊎ Some (All (IsMet (map (lower latin) (codes "GPT-4o" ∷ [])))) two_groups)
matches_iff_example = matches_iff latin two_groups (codes "GPT-4o" ∷ [])

writable :
    (t : SearchTerm)
    → (some_text : (c : ℕ) × (s : Runes) × (t.text ≡ c ∷ s))
    → All (λ c. nat_eqb c quote ≡ false) t.text
    → lower latin t.text ≡ t.text
    → IsWritable latin t
writable t a b c = record { some_text = a; unquoted = b; in_lower_case = c }

parse_search-write_search_example : parse_search latin (write_search two_groups) ≡ two_groups
unfolding program
parse_search-write_search_example = parse_search-write_search latin two_groups (
  (
    (_, _, refl),
    (
      writable _ (_, _, refl) (refl, (refl, (refl, tt))) refl,
      (writable _ (_, _, refl) (refl, (refl, (refl, (refl, tt)))) refl, tt),
    ),
  ),
  (
    (
      (_, _, refl),
      (writable _ (_, _, refl) (refl, (refl, (refl, (refl, (refl, (refl, (refl, tt))))))) refl, tt),
    ),
    tt,
  ),
)
