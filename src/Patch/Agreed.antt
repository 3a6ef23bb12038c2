-- ===== src/Patch/Agreed.antt =====
-- Which candidate `patch_apply_unified` of src/dstudio_unified_patch.c takes.
use dstudio.Base.{
  ◌≡◌, refl, sym, ap, ◌∙◌, ◌↔◌, ◌⊎◌, inl, inr, List, [], ◌∷◌, Option, none, some, Str, str_eq,
  str_eq_iff, str_eq_of_eq, All, arith, Bool-cases, Option-cases, ok,
}
use dstudio.Patch.{apply_candidates, patch_apply_unified, unified_candidate}

-- A patch that can be read, and applies to nothing else than `text`, if it applies at all.
abbrev pub Permits : Str → Str → Str → Option Str → Type 0
Permits source name text none = ⊥
Permits source name text (some patch) =
    (unified_candidate source patch name ≡ none) ⊎ (unified_candidate source patch name ≡ some text)

abbrev pub Gives : Str → Str → Str → Option Str → Type 0
Gives source name text none = ⊥
Gives source name text (some patch) = unified_candidate source patch name ≡ some text

-- One of the patches does.
abbrev pub GivesOne : Str → Str → Str → List (Option Str) → Type 0
GivesOne source name text [] = ⊥
GivesOne source name text (p ∷ patches) =
    Gives source name text p ⊎ GivesOne source name text patches

module _ (source name text : Str) where
  -- What is selected so far is the text, or nothing is and a patch to come gives it.
  abbrev IsSettled : Option Str → List (Option Str) → Type 0
  IsSettled selected patches =
      (selected ≡ some text) ⊎ ((selected ≡ none) × GivesOne source name text patches)

  abbrev IsAgreed : Option Str → List (Option Str) → Type 0
  IsAgreed selected patches = All (Permits source name text) patches × IsSettled selected patches

  passed :
      (selected : Option Str) (patch : Str) (patches : List (Option Str))
      → unified_candidate source patch name ≡ none
      → IsAgreed selected patches
      → IsAgreed selected (some patch ∷ patches)
  passed selected patch patches e (all, inl same) = ((inl e, all), inl same)
  passed selected patch patches e (all, inr (first, one)) = ((inl e, all), inr (first, inr one))

  taken :
      (patch c : Str) (patches : List (Option Str))
      → unified_candidate source patch name ≡ some c
      → IsAgreed (some c) patches
      → IsAgreed none (some patch ∷ patches)
  taken patch c patches e (all, inl same) = ((inr (e ∙ same), all), inr (refl, inl (e ∙ same)))
  taken patch c patches e (all, inr (first, one)) = absurd (none_some first)
    where
      none_some : some c ≡ none → ⊥
      none_some e = cc

  repeated :
      (patch s : Str) (patches : List (Option Str))
      → unified_candidate source patch name ≡ some s
      → IsAgreed (some s) patches
      → IsAgreed (some s) (some patch ∷ patches)
  repeated patch s patches e (all, inl same) = ((inr (e ∙ same), all), inl same)
  repeated patch s patches e (all, inr (first, one)) = cc

  agreed :
      (selected : Option Str) (patches : List (Option Str))
      → apply_candidates selected patches source name ≡ ok text
      → IsAgreed selected patches
  unfolding apply_candidates
  agreed none [] h = cc
  agreed (some s) [] h = (tt, inl (ground arith))
  agreed none (none ∷ patches) h = cc
  agreed (some s) (none ∷ patches) h = cc
  agreed none (some patch ∷ patches) h = elim (Option-cases (unified_candidate source patch name)) [
    | inl e ↦ passed none patch patches e (agreed none patches (rw e at h))
    | inr (c, e) ↦ taken patch c patches e (agreed (some c) patches (rw e at h))
  ]
  agreed (some s) (some patch ∷ patches) h =
      elim (Option-cases (unified_candidate source patch name)) [
        | inl e ↦ passed (some s) patch patches e (agreed (some s) patches (rw e at h))
        | inr (c, e) ↦ elim (Bool-cases (str_eq s c)) [
          | inl same ↦
              repeated patch s patches (e ∙ ap some (sym ((str_eq_iff s c).0 same)))
                (agreed (some s) patches (rw (e, same) at h))
          | inr other ↦ cc (rw (e, other) at h)
        ]
      ]

  settled_by : (c : Str) → some c ≡ some text → c ≡ text
  settled_by c e = cc

  agreed_lem :
      (selected : Option Str) (patches : List (Option Str))
      → All (Permits source name text) patches
      → IsSettled selected patches
      → apply_candidates selected patches source name ≡ ok text
  unfolding apply_candidates
  agreed_lem none [] all (inl same) = cc
  agreed_lem none [] all (inr (first, one)) = absurd one
  agreed_lem (some s) [] all (inl same) = ap ok (settled_by s same)
  agreed_lem (some s) [] all (inr (first, one)) = cc
  agreed_lem selected (none ∷ patches) all settled = absurd (all.0)
  agreed_lem none (some patch ∷ patches) (inl e, all) (inl same) = cc
  agreed_lem none (some patch ∷ patches) (inr e, all) (inl same) = cc
  agreed_lem none (some patch ∷ patches) (inl e, all) (inr (first, inl here)) = cc
  agreed_lem none (some patch ∷ patches) (inl e, all) (inr (first, inr one)) =
      rw e (agreed_lem none patches all (inr (refl, one)))
  agreed_lem none (some patch ∷ patches) (inr e, all) (inr (first, one)) =
      rw e (agreed_lem (some text) patches all (inl refl))
  agreed_lem (some s) (some patch ∷ patches) (inl e, all) (inl same) =
      rw e (agreed_lem (some s) patches all (inl same))
  agreed_lem (some s) (some patch ∷ patches) (inr e, all) (inl same) =
      rw (e, str_eq_of_eq s text (settled_by s same)) (agreed_lem (some s) patches all (inl same))
  agreed_lem (some s) (some patch ∷ patches) all (inr (first, one)) = cc

  settled_none :
      (patches : List (Option Str))
      → IsAgreed none patches
      → All (Permits source name text) patches × GivesOne source name text patches
  settled_none patches (all, inl e) = cc
  settled_none patches (all, inr (first, one)) = (all, one)

-- The patches of a set give a text exactly when all of them can be read, one at least applies to
-- the source with that text, and no other applies with another.
pub patch_apply_unified_iff :
    (patches : List (Option Str)) (source name text : Str)
    → (patch_apply_unified patches source name ≡ ok text)
      ↔ (All (Permits source name text) patches × GivesOne source name text patches)
unfolding patch_apply_unified
patch_apply_unified_iff patches source name text = (
  λ h. settled_none source name text patches (agreed source name text none patches h),
  λ (all, one). agreed_lem source name text none patches all (inr (refl, one)),
)
