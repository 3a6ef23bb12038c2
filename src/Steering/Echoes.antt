-- ===== src/Steering/Echoes.antt =====
-- What the inputs that are applied ask of the transcript, as the queue of src/dstudio_steering.c goes on.
use dstudio.Base.{
  ℕ, zero, suc, ◌≡◌, refl, sym, ap, ◌∙◌, subst, false, List, [], ◌∷◌, ◌++◌, append-nil,
  append_assoc, Str, if◌then◌else◌, set, map, map-set, All, arith,
}
use dstudio.Steering.{marked, with_input, is_applied, echo}
use dstudio.Steering.Types.{Delivery, pending, delivered, applied, Input, Steer}
use dstudio.Steering.Queue.{
  IsFirst, IsOrdered, IsPending, IsQueue, Behind-applied, Behind-waiting, first-get_elem?,
}

-- The transcript of the inputs that are applied.
unfoldable pub echoes : ℕ → List Input → Str
echoes turn [] = []
echoes turn (x ∷ xs) = if is_applied x.state then echo turn x ++ echoes turn xs else echoes turn xs

abbrev pub contents : List Input → List (Str × Str)
contents xs = map (λ x. (x.id, x.text)) xs

-- From `s` to `s'` the turn stays, inputs are only added, and the transcript gets exactly what the
-- inputs that became applied ask for, behind what those before them asked for.
pub record Continues (s s' : Steer) (appended : Str) : Type 0 where
  pub same_turn : s'.turn ≡ s.turn
  pub more : List (Str × Str)
  pub grown : contents s'.inputs ≡ contents s.inputs ++ more
  pub echoed : echoes s.turn s'.inputs ≡ echoes s.turn s.inputs ++ appended

pub Continues-refl : (s : Steer) → Continues s s []
Continues-refl s = record {
  same_turn = refl;
  more = [];
  grown = sym (append-nil (contents s.inputs));
  echoed = sym (append-nil (echoes s.turn s.inputs));
}

pub Continues-trans :
    {s t u : Steer} {a b : Str} → Continues s t a → Continues t u b → Continues s u (a ++ b)
Continues-trans {s} {t} {u} {a} {b} c d = record {
  same_turn = d.same_turn ∙ c.same_turn;
  more = c.more ++ d.more;
  grown =
      d.grown
      ∙ ap (λ front. front ++ d.more) c.grown
      ∙ append_assoc (contents s.inputs) c.more d.more;
  echoed =
      subst (λ n. echoes n u.inputs ≡ echoes n t.inputs ++ b) c.same_turn d.echoed
      ∙ ap (λ front. front ++ b) c.echoed
      ∙ append_assoc (echoes s.turn s.inputs) a b;
}

-- A new input asks for nothing yet.
pub echoes-append :
    (turn : ℕ) (xs : List Input) (y : Input)
    → is_applied y.state ≡ false
    → echoes turn (xs ++ y ∷ []) ≡ echoes turn xs
unfolding echoes
echoes-append turn [] y e = ground arith
echoes-append turn (x ∷ xs) y e = ground (arith, echoes-append turn xs y e)

pub contents-append :
    (xs : List Input) (y : Input) → contents (xs ++ y ∷ []) ≡ contents xs ++ (y.id, y.text) ∷ []
contents-append [] y = refl
contents-append (x ∷ xs) y = ap (λ rest. (x.id, x.text) ∷ rest) (contents-append xs y)

echoes-pending : (turn : ℕ) (xs : List Input) → All IsPending xs → echoes turn xs ≡ []
unfolding echoes
echoes-pending turn [] h = refl
echoes-pending turn (x ∷ xs) h = rw (h.0) (echoes-pending turn xs h.1)

-- What the first input that is not applied asks for once it is.
abbrev pub asked : Delivery → ℕ → Input → Str
asked applied turn x = echo turn x
asked delivered turn x = []
asked pending turn x = []

echoes-mark_first :
    (turn : ℕ) (xs : List Input) (i : ℕ) (x : Input) (d : Delivery)
    → IsFirst xs i x
    → IsOrdered xs
    → echoes turn (set xs i (marked d x)) ≡ echoes turn xs ++ asked d turn x
unfolding echoes echo
echoes-mark_first turn [] i x d f h = absurd f
echoes-mark_first turn (y ∷ ys) zero x d f h =
    let quiet = echoes-pending turn ys (Behind-waiting y.state _ _ f.1 h) in
    rw (f.1, quiet) (fresh d)
  where
    fresh :
        (d : Delivery)
        → (if is_applied d then echo turn (marked d x) ++ [] else []) ≡ asked d turn x
    fresh applied = append-nil (echo turn x)
    fresh delivered = refl
    fresh pending = refl
echoes-mark_first turn (y ∷ ys) (suc i) x d f h =
    let rest = echoes-mark_first turn ys i x d f.1 (Behind-applied y.state _ _ f.0 h) in
    rw (f.0, rest) (sym (append_assoc (echo turn y) (echoes turn ys) (asked d turn x)))

pub mark_first-Continues :
    (s : Steer) (i : ℕ) (x : Input) (d : Delivery)
    → IsFirst s.inputs i x
    → IsQueue s
    → Continues s (with_input i (marked d x) s) (asked d s.turn x)
mark_first-Continues s i x d f q =
    let at = first-get_elem? s.inputs i x f in
    record {
      same_turn = refl;
      more = [];
      grown =
          map-set (λ (y : Input). (y.id, y.text)) s.inputs i x (marked d x) at refl
          ∙ sym (append-nil (contents s.inputs));
      echoed = echoes-mark_first s.turn s.inputs i x d f q.ordered;
    }
