-- ===== src/Mt/Nllb/Batch.antt =====
-- What adapters/mt_nllb.py answers when it is asked for several languages.
use lad_translate.Common.{
  ltb, if◌then◌else◌, Bool-cases, length, ◌≡◌, refl, ap, ◌∙◌, inl, inr, Bool, true, false, ◌&&◌,
  ◌||◌, Option, none, some, List, [], ◌∷◌, arith,
}
use lad_translate.Common.Text.{Text, text_eq, text_eq_iff, text_eq_sym, member}
use lad_translate.Common.Dict
use lad_translate.Common.Dict.{Dict, text_key}
use lad_translate.Mt.Routing.{from_keys}
use lad_translate.Mt.Routing.Isolation.{Answers, from_keys-Answers}
use lad_translate.Mt.Nllb.{
  NllbMt, supports, wanted, decode_all, batch_answers, translate_batch, translate_many,
  translate_sync, is_blank, decode, code_of,
}

-- Whether a language has an answer.
abbrev pub is_answered : Text → Dict Text Text → Bool
is_answered t d = elim (Dict.lookup t d) [ none ↦ false | some words ↦ true ]

member-wanted :
    (n : NllbMt) (source t : Text) (ts : List Text)
    → member t (wanted n source ts) ≡ (member t ts && supports n source t)
unfolding wanted
member-wanted n source t [] = refl
member-wanted n source t (s ∷ ts) = elim (Bool-cases (text_eq t s)) [
  | inl q ↦
      ground (arith, q, ap (supports n source) ((text_eq_iff t s).0 q), member-wanted n source t ts)
  | inr q ↦ ground (arith, q, member-wanted n source t ts)
]

lookup-from_keys :
    (t : Text) (ls : List Text) (v : Text) (d : Dict Text Text)
    → Dict.lookup t (from_keys ls v d) ≡ (if member t ls then some v else Dict.lookup t d)
unfolding from_keys
lookup-from_keys t [] v d = refl
lookup-from_keys t (l ∷ ls) v d = ground (
  arith,
  lookup-from_keys t ls v (Dict.insert l v d),
  Dict.lookup-insert l t v d,
  text_eq_sym l t,
)

decode_all-HasUniqueKeys :
    (n : NllbMt) (ts : List Text) (rs : List (List Text)) (d : Dict Text Text)
    → Dict.HasUniqueKeys d
    → Dict.HasUniqueKeys (decode_all n ts rs d)
unfolding decode_all
decode_all-HasUniqueKeys n [] rs d u = u
decode_all-HasUniqueKeys n (t ∷ ts) [] d u = u
decode_all-HasUniqueKeys n (t ∷ ts) (r ∷ rs) d u =
    decode_all-HasUniqueKeys n ts rs _ (Dict.insert-HasUniqueKeys t (decode n r (code_of n t)) d u)

decode_all-is_answered :
    (n : NllbMt) (t : Text) (ts : List Text) (rs : List (List Text)) (d : Dict Text Text)
    → length rs ≡ length ts
    → is_answered t (decode_all n ts rs d) ≡ (member t ts || is_answered t d)
unfolding decode_all
decode_all-is_answered n t [] rs d h = refl
decode_all-is_answered n t (s ∷ ts) [] d h = ground (arith, h)
decode_all-is_answered n t (s ∷ ts) (r ∷ rs) d h =
    decode_all-is_answered n t ts rs (Dict.insert s (decode n r (code_of n s)) d)
      (ground (arith, h))
    ∙ ground (arith, Dict.lookup-insert s t (decode n r (code_of n s)) d, text_eq_sym s t)

decode_all-only :
    (n : NllbMt) (t : Text) (ts : List Text) (rs : List (List Text)) (d : Dict Text Text)
    → member t ts ≡ false
    → Dict.lookup t (decode_all n ts rs d) ≡ Dict.lookup t d
unfolding decode_all
decode_all-only n t [] rs d h = refl
decode_all-only n t (s ∷ ts) [] d h = refl
decode_all-only n t (s ∷ ts) (r ∷ rs) d h =
    decode_all-only n t ts rs (Dict.insert s (decode n r (code_of n s)) d) (ground (arith, h))
    ∙ ground (arith, h, Dict.lookup-insert s t (decode n r (code_of n s)) d, text_eq_sym s t)

-- The answers for the languages that are wanted, when a call that raised leaves `failed`.
pub record IsComplete (asked : List Text) (failed : Type 0) (d : Dict Text Text) : Type 0 where
  pub unique : Dict.HasUniqueKeys d
  pub answered : (t : Text) → is_answered t d ≡ member t asked
  pub silent : failed → (t : Text) → member t asked ≡ true → Dict.lookup t d ≡ some []

from_keys-IsComplete :
    (asked : List Text) (failed : Type 0) → IsComplete asked failed (from_keys asked [] [])
unfolding Dict.lookup
from_keys-IsComplete asked failed = record {
  unique = (from_keys-Answers asked []).unique;
  answered = λ t. ground (arith, lookup-from_keys t asked [] []);
  silent = λ f t q. lookup-from_keys t asked [] [] ∙ rw q refl;
}

batch-IsComplete :
    (n : NllbMt) (asked : List Text) (o outcome : Option (List (List Text)))
    → outcome ≡ o
    → ((results : List (List Text)) → outcome ≡ some results → length results ≡ length asked)
    → IsComplete asked (outcome ≡ none) (batch_answers n asked o)
unfolding Dict.lookup
batch-IsComplete n asked none outcome e h = from_keys-IsComplete asked (outcome ≡ none)
batch-IsComplete n asked (some results) outcome e h = record {
  unique = decode_all-HasUniqueKeys n asked results [] tt;
  answered = λ t. decode_all-is_answered n t asked results [] (h results e) ∙ ground arith;
  silent = λ f t q. ground (arith, e, f);
}

-- When the model gives a result for each source of its batch, exactly the languages that are asked
-- for and supported are answered, each once; and when it raises they have no words.
pub translate_many-IsComplete :
    (n : NllbMt) (text source : Text) (targets : List Text)
    → (let asked = wanted n source targets in
        (results : List (List Text))
        → translate_batch n text asked ≡ some results
        → length results ≡ length asked)
    → IsComplete
        (wanted n source targets)
        (translate_batch n text (wanted n source targets) ≡ none)
        (translate_many n text source targets)
      × ((t : Text)
          → member t (wanted n source targets) ≡ (member t targets && supports n source t))
unfolding translate_many translate_sync
translate_many-IsComplete n text source targets h = (
  by_text (ltb (length (wanted n source targets)) 1 || is_blank text),
  λ t. member-wanted n source t targets,
)
  where
    asked : List Text
    asked = wanted n source targets

    by_text :
        (b : Bool)
        → IsComplete asked (translate_batch n text asked ≡ none) (
            if b
            then from_keys asked [] []
            else batch_answers n asked (translate_batch n text asked))
    by_text true = from_keys-IsComplete asked (translate_batch n text asked ≡ none)
    by_text false = batch-IsComplete n asked (translate_batch n text asked) _ refl h

-- Whatever the model gives, only languages that are asked for and supported are answered.
pub translate_many-Answers :
    (n : NllbMt) (text source : Text) (targets : List Text)
    → Answers targets (translate_many n text source targets)
unfolding translate_many translate_sync Dict.lookup
translate_many-Answers n text source targets =
    by_text (ltb (length asked) 1 || is_blank text) (translate_batch n text asked)
  where
    asked : List Text
    asked = wanted n source targets

    not_asked : (t : Text) → member t targets ≡ false → member t asked ≡ false
    not_asked t h = ground (arith, member-wanted n source t targets, h)

    by_text :
        (b : Bool) (o : Option (List (List Text)))
        → Answers targets (if b then from_keys asked [] [] else batch_answers n asked o)
    by_text true o = record {
      unique = (from_keys-Answers asked []).unique;
      only = λ t h. (from_keys-Answers asked []).only t (not_asked t h);
    }
    by_text false none = record {
      unique = (from_keys-Answers asked []).unique;
      only = λ t h. (from_keys-Answers asked []).only t (not_asked t h);
    }
    by_text false (some results) = record {
      unique = decode_all-HasUniqueKeys n asked results [] tt;
      only = λ t h. decode_all-only n t asked results [] (not_asked t h);
    }
