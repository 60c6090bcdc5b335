-- ===== src/Config/Dom/Written.antt =====
-- What stands in a document after its elements were set, and where setting them fails.
use recording_agent_continuo.Prelude.{
  true, ◌≡◌, ◌≢◌, refl, ap, sym, ◌∙◌, inl, inr, Bool, Bool-cases, ◌&&◌, ◌||◌, Option, none, some,
  List, [], ◌∷◌, ◌++◌, arith, All, is_some, is_some->>=, is_some-then, given, Yields, Yields->>=,
}
use recording_agent_continuo.Prelude.Text.{Text, text_eq}
use recording_agent_continuo.Config.Dom.{
  Mxml, set_found, set_data, du_set_child_new_data, set_children,
}

pub text_eq-eq : (s t : Text) → text_eq s t ≡ true → s ≡ t
text_eq-eq [] [] h = refl
text_eq-eq [] (b ∷ t) h = absurd cc
text_eq-eq (a ∷ s) [] h = absurd cc
text_eq-eq (a ∷ s) (b ∷ t) h = ground (arith, text_eq-eq s t)

-- What the code relies on of mxml: a node with a text can be given another, which changes that
-- alone, and neither gives nor takes a text, nor changes what is found.
pub record IsMxml {D N : Type 0} (m : Mxml D N) : Type 0 where
  pub value-set_same :
      (n : N) (t old : Text) (d : D)
      → m.value d n ≡ some old
      → m.value (m.set_value n t d) n ≡ some t
  pub value-set_other :
      (n k : N) (t : Text) (d : D) → n ≢ k → m.value (m.set_value n t d) k ≡ m.value d k
  pub is_some-set :
      (n k : N) (t old : Text) (d : D)
      → m.value d n ≡ some old
      → is_some (m.value (m.set_value n t d) k) ≡ is_some (m.value d k)
  pub find-set :
      (n : N) (t : Text) (d : D) (node : N) (tag : Text)
      → m.find (m.set_value n t d) node tag ≡ m.find d node tag

module _ {D N : Type 0} (m : Mxml D N) (laws : IsMxml m) where
  -- The element is missing, or it has a text.
  abbrev is_filled : D → Option N → Bool
  is_filled d none = true
  is_filled d (some n) = is_some (m.value d n)

  -- Each element that is searched for and found has a text.
  abbrev pub are_filled : D → N → List (Text × Text) → Bool
  are_filled d node [] = true
  are_filled d node ((tag, v) ∷ ps) = is_filled d (m.find d node tag) && are_filled d node ps

  -- The same elements are found.
  abbrev FindsAs : D → D → Type 0
  FindsAs d d1 = (node : N) (tag : Text) → m.find d1 node tag ≡ m.find d node tag

  -- The same elements are found, and the same have a text.
  abbrev IsKept : D → D × Bool → Type 0
  IsKept d r = ((k : N) → is_some (m.value r.0 k) ≡ is_some (m.value d k)) × FindsAs d r.0

  set_found-IsKept :
      (n : N) (o : Option Text) (v : Text) (d : D)
      → m.value d n ≡ o
      → Yields (IsKept d) (set_found m n o v d)
  unfolding set_found
  set_found-IsKept n none v d h = tt
  set_found-IsKept n (some cur) v d h = elim (Bool-cases (text_eq v cur)) [
    | inl same ↦ rw same ((λ k. refl), (λ node tag. refl))
    | inr other ↦
        rw other ((λ k. laws.is_some-set n k v cur d h), (λ node tag. laws.find-set n v d node tag))
  ]

  set_data-IsKept : (o : Option N) (v : Text) (d : D) → Yields (IsKept d) (set_data m o v d)
  unfolding set_data
  set_data-IsKept none v d = ((λ k. refl), (λ node tag. refl))
  set_data-IsKept (some n) v d = set_found-IsKept n (m.value d n) v d refl

  is_some-set_found :
      (n : N) (o : Option Text) (v : Text) (d : D) → is_some (set_found m n o v d) ≡ is_some o
  unfolding set_found
  is_some-set_found n none v d = refl
  is_some-set_found n (some cur) v d = elim (Bool-cases (text_eq v cur)) [
    | inl same ↦ rw same refl
    | inr other ↦ rw other refl
  ]

  is_some-set_data : (o : Option N) (v : Text) (d : D) → is_some (set_data m o v d) ≡ is_filled d o
  unfolding set_data
  is_some-set_data none v d = refl
  is_some-set_data (some n) v d = is_some-set_found n (m.value d n) v d

  is_filled-kept :
      (o : Option N) (d : D) (r : D × Bool) → IsKept d r → is_filled r.0 o ≡ is_filled d o
  is_filled-kept none d r h = refl
  is_filled-kept (some n) d r h = h.0 n

  are_filled-kept :
      (ps : List (Text × Text)) (node : N) (d : D) (r : D × Bool)
      → IsKept d r
      → are_filled r.0 node ps ≡ are_filled d node ps
  are_filled-kept [] node d r h = refl
  are_filled-kept ((tag, v) ∷ ps) node d r h =
      let found = ap (is_filled r.0) (h.1 node tag) ∙ is_filled-kept (m.find d node tag) d r h in
      ap (λ b. b && are_filled r.0 node ps) found
      ∙ ap (λ b. is_filled d (m.find d node tag) && b) (are_filled-kept ps node d r h)

  -- Setting elements of a node returns, rather than read through a null pointer, exactly if each
  -- of them that is found has a text.
  set_children-returns :
      (node : N) (ps : List (Text × Text)) (d : D)
      → is_some (set_children m node ps d) ≡ are_filled d node ps
  unfolding set_children du_set_child_new_data
  set_children-returns node [] d = refl
  set_children-returns node ((tag, v) ∷ ps) d =
      let o = m.find d node tag in
      is_some->>= (IsKept d) (set_data m o v d) _ (are_filled d node ps) (set_data-IsKept o v d)
        (λ a kept.
          is_some-then (set_children m node ps a.0) (λ b. (b.0, a.1 || b.1))
          ∙ set_children-returns node ps a.0
          ∙ are_filled-kept ps node d a kept)
      ∙ ap (λ b. b && are_filled d node ps) (is_some-set_data o v d)

  -- The node that is set is not n.
  abbrev Misses : D → (node n : N) → Text × Text → Type 0
  Misses d node n p = m.find d node p.0 ≢ some n

  -- The text of n is the same, and the same elements are found.
  abbrev IsUntouched : D → N → D × Bool → Type 0
  IsUntouched d n r = (m.value r.0 n ≡ m.value d n) × FindsAs d r.0

  set_found-IsUntouched :
      (k n : N) (o : Option Text) (v : Text) (d : D)
      → k ≢ n
      → Yields (IsUntouched d n) (set_found m k o v d)
  unfolding set_found
  set_found-IsUntouched k n none v d h = tt
  set_found-IsUntouched k n (some cur) v d h = elim (Bool-cases (text_eq v cur)) [
    | inl same ↦ rw same (refl, (λ node tag. refl))
    | inr other ↦
        rw other (laws.value-set_other k n v d h, (λ node tag. laws.find-set k v d node tag))
  ]

  set_data-IsUntouched :
      (o : Option N) (n : N) (v : Text) (d : D)
      → o ≢ some n
      → Yields (IsUntouched d n) (set_data m o v d)
  unfolding set_data
  set_data-IsUntouched none n v d h = (refl, (λ node tag. refl))
  set_data-IsUntouched (some k) n v d h =
      set_found-IsUntouched k n (m.value d k) v d (λ e. h (ap some e))

  -- The text of n is v.
  abbrev Holds : N → Text → D × Bool → Type 0
  Holds n v r = m.value r.0 n ≡ some v

  set_found-Holds :
      (n : N) (o : Option Text) (v : Text) (d : D)
      → m.value d n ≡ o
      → Yields (λ r. Holds n v r × FindsAs d r.0) (set_found m n o v d)
  unfolding set_found
  set_found-Holds n none v d h = tt
  set_found-Holds n (some cur) v d h = elim (Bool-cases (text_eq v cur)) [
    | inl same ↦ rw same (h ∙ ap some (sym (text_eq-eq v cur same)), (λ node tag. refl))
    | inr other ↦
        rw other (laws.value-set_same n v cur d h, (λ node tag. laws.find-set n v d node tag))
  ]

  Misses-kept :
      (ps : List (Text × Text)) (d d1 : D) (node n : N)
      → FindsAs d d1
      → All (Misses d node n) ps
      → All (Misses d1 node n) ps
  Misses-kept [] d d1 node n same h = tt
  Misses-kept (p ∷ ps) d d1 node n same h =
      ((λ e. h.0 (sym (same node p.0) ∙ e)), Misses-kept ps d d1 node n same h.1)

  set_children-untouched :
      (ps : List (Text × Text)) (node n : N) (v : Text) (d : D)
      → All (Misses d node n) ps
      → m.value d n ≡ some v
      → Yields (Holds n v) (set_children m node ps d)
  unfolding set_children du_set_child_new_data
  set_children-untouched [] node n v d h holds = holds
  set_children-untouched ((tag, w) ∷ ps) node n v d h holds =
      let o = m.find d node tag in
      Yields->>= (IsUntouched d n) (Holds n v) (set_data m o w d) _
        (set_data-IsUntouched o n w d h.0)
        (λ a same.
          Yields->>= (Holds n v) (Holds n v) (set_children m node ps a.0) _
            (set_children-untouched ps node n v a.0 (Misses-kept ps d a.0 node n same.1 h.1)
              (same.0 ∙ holds))
            (λ b after. after))

  set_children-Holds :
      (before : List (Text × Text)) (tag v : Text) (later : List (Text × Text)) (d : D) (node n : N)
      → m.find d node tag ≡ some n
      → All (Misses d node n) later
      → Yields (Holds n v) (set_children m node (before ++ (tag, v) ∷ later) d)
  unfolding set_children du_set_child_new_data set_data
  set_children-Holds [] tag v later d node n found misses = rw found (
      Yields->>= (λ r. Holds n v r × FindsAs d r.0) (Holds n v) (set_found m n (m.value d n) v d) _
        (set_found-Holds n (m.value d n) v d refl)
        (λ a (holds, same).
          Yields->>= (Holds n v) (Holds n v) (set_children m node later a.0) _
            (set_children-untouched later node n v a.0 (Misses-kept later d a.0 node n same misses)
              holds)
            (λ b after. after)))
  set_children-Holds ((first, w) ∷ before) tag v later d node n found misses =
      let o = m.find d node first in
      Yields->>= (IsKept d) (Holds n v) (set_data m o w d) _ (set_data-IsKept o w d) (λ a kept.
        Yields->>= (Holds n v) (Holds n v) (set_children m node (before ++ (tag, v) ∷ later) a.0) _
          (set_children-Holds before tag v later a.0 node n (kept.1 node tag ∙ found)
            (Misses-kept later d a.0 node n kept.1 misses))
          (λ b after. after))

  -- If each of several elements of a node that is found has a text, setting them returns, and then
  -- an element that was found has its new value, unless a later of them finds the same element.
  pub set_children-value :
      (before : List (Text × Text)) (tag v : Text) (later : List (Text × Text)) (d : D) (node n : N)
      → are_filled d node (before ++ (tag, v) ∷ later) ≡ true
      → m.find d node tag ≡ some n
      → All (Misses d node n) later
      → (r : D × Bool) × (set_children m node (before ++ (tag, v) ∷ later) d ≡ some r)
        × (m.value r.0 n ≡ some v)
  set_children-value before tag v later d node n filled found misses =
      let ps = before ++ (tag, v) ∷ later in
      given (Holds n v) (set_children m node ps d) (set_children-returns node ps d ∙ filled)
        (set_children-Holds before tag v later d node n found misses)
