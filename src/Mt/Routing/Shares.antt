-- ===== src/Mt/Routing/Shares.antt =====
-- How the wanted languages are shared between the backends.
use lad_translate.Common.{
  if◌then◌else◌, Bool-cases, All, All-append, ◌≡◌, refl, sym, ap, ◌∙◌, subst, inl, inr, Bool, true,
  false, List, [], ◌∷◌, ◌++◌, append_assoc, append-nil, arith,
}
use lad_translate.Common.Text.{Text, text_eq, text_eq_iff}
use lad_translate.Common.Dict
use lad_translate.Common.Dict.{Dict, text_key}
use lad_translate.Mt.Routing.{Router, backend_for, group_wanted}

-- The languages of a list that go to one backend, in order.
abbrev pub share : Router → Text → List Text → List Text
share r name [] = []
share r name (t ∷ ts) =
    let rest = share r name ts in if text_eq (backend_for r t) name then t ∷ rest else rest

get_list-append_at :
    (a b x : Text) (d : Dict Text (List Text))
    → Dict.get_list b (Dict.append_at a x d)
      ≡ (if text_eq a b then Dict.get_list a d ++ x ∷ [] else Dict.get_list b d)
unfolding Dict.append_at
get_list-append_at a b x d = ground (arith, Dict.lookup-insert a b (Dict.get_list a d ++ x ∷ []) d)

-- Over any groups, each backend is asked for what it had and, behind that, for exactly the wanted
-- languages that are assigned to it, in order.
pub group-share :
    (r : Router) (name : Text) (ts : List Text) (d : Dict Text (List Text))
    → Dict.get_list name (group_wanted r ts d) ≡ Dict.get_list name d ++ share r name ts
unfolding group_wanted
group-share r name [] d = sym (append-nil (Dict.get_list name d))
group-share r name (t ∷ ts) d =
    group-share r name ts (Dict.append_at (backend_for r t) t d)
    ∙ ap (λ (xs : List Text). xs ++ share r name ts) (get_list-append_at (backend_for r t) name t d)
    ∙ joined (text_eq (backend_for r t) name) (λ q. (text_eq_iff (backend_for r t) name).0 q)
  where
    joined :
        (b : Bool)
        → (b ≡ true → backend_for r t ≡ name)
        → (if b then Dict.get_list (backend_for r t) d ++ t ∷ [] else Dict.get_list name d)
            ++ share r name ts
          ≡ Dict.get_list name d ++ (if b then t ∷ share r name ts else share r name ts)
    joined true same =
        ap (λ n. (Dict.get_list n d ++ t ∷ []) ++ share r name ts) (same refl)
        ∙ append_assoc (Dict.get_list name d) (t ∷ []) (share r name ts)
    joined false same = refl

-- A group holds the languages of its own backend.
abbrev pub IsOwn : Router → Text × List Text → Type 0
IsOwn r g = All (λ t. backend_for r t ≡ g.0) g.1

insert-IsOwn :
    (r : Router) (name : Text) (ls : List Text) (d : Dict Text (List Text))
    → All (λ t. backend_for r t ≡ name) ls
    → All (IsOwn r) d
    → All (IsOwn r) (Dict.insert name ls d)
unfolding Dict.insert
insert-IsOwn r name ls [] h k = (h, tt)
insert-IsOwn r name ls ((b, ms) ∷ d) h k = elim (Bool-cases (text_eq b name)) [
  | inl q ↦
      rw q (subst (λ n. All (λ t. backend_for r t ≡ n) ls) (sym ((text_eq_iff b name).0 q)) h, k.1)
  | inr q ↦ rw q (k.0, insert-IsOwn r name ls d h k.1)
]

get_list-IsOwn :
    (r : Router) (name : Text) (d : Dict Text (List Text))
    → All (IsOwn r) d
    → All (λ t. backend_for r t ≡ name) (Dict.get_list name d)
unfolding Dict.lookup
get_list-IsOwn r name [] h = tt
get_list-IsOwn r name ((b, ms) ∷ d) h = elim (Bool-cases (text_eq b name)) [
  | inl q ↦
      rw (q, All) (subst (λ n. All (λ t. backend_for r t ≡ n) ms) ((text_eq_iff b name).0 q) h.0)
  | inr q ↦ rw (q, All) (get_list-IsOwn r name d h.1)
]

pub group-IsOwn :
    (r : Router) (ts : List Text) (d : Dict Text (List Text))
    → All (IsOwn r) d
    → Dict.HasUniqueKeys d
    → All (IsOwn r) (group_wanted r ts d) × Dict.HasUniqueKeys (group_wanted r ts d)
unfolding group_wanted Dict.append_at
group-IsOwn r [] d h u = (h, u)
group-IsOwn r (t ∷ ts) d h u =
    let name = backend_for r t in
    let ls = Dict.get_list name d ++ t ∷ [] in
    group-IsOwn r ts (Dict.insert name ls d)
      (insert-IsOwn r name ls d
        (All-append (λ t. backend_for r t ≡ name) (Dict.get_list name d) (t ∷ [])
          (get_list-IsOwn r name d h) (refl, tt))
        h)
      (Dict.insert-HasUniqueKeys name ls d u)
