-- ===== src/SpaceMonitor/Search.antt =====
-- That the search of the space monitor finds the oldest file.
use recording_agent_continuo.Prelude.{
  ◌≡◌, refl, ◌⊎◌, inl, inr, true, false, not, ◌||◌, if◌then◌else◌, List, [], ◌∷◌, ◌++◌, All,
  Bool-cases,
}
use recording_agent_continuo.Prelude.Text.{Text}
use recording_agent_continuo.Prelude.Int.{
  ℤ, ltb_ℤ, eq_ℤ, ltb_ℤ_irrefl, ltb_ℤ_asymm, eq_ℤ-le, ltb_ℤ-le_trans,
}
use recording_agent_continuo.Metarec.Recorder.{Tm}
use recording_agent_continuo.Storage.{
  Entry, unreadable, regular, directory, special, Entries, nil, cons, join_path,
}
use recording_agent_continuo.SpaceMonitor.{
  Oldest, max_time_t, is_skipped, file_name_to_epoch, older, find_oldest_entry, find_oldest_entries,
}

-- x ≤ y
abbrev pub Le_ℤ : ℤ → ℤ → Type 0
Le_ℤ x y = ltb_ℤ y x ≡ false

-- The paths of the regular files that the walk comes to.
mutual
  pub visited_entry : Text → Entry → List Text
  visited_entry dir (unreadable name) = []
  visited_entry dir (regular name) = if is_skipped name then [] else join_path dir name ∷ []
  visited_entry dir (directory name opens es) =
      if is_skipped name || not opens then [] else visited (join_path dir name) es
  visited_entry dir (special name) = []

  pub visited : Text → Entries → List Text
  visited dir nil = []
  visited dir (cons (unreadable name) es) = []
  visited dir (cons (regular name) es) = visited_entry dir (regular name) ++ visited dir es
  visited dir (cons (directory name opens es') es) =
      visited_entry dir (directory name opens es') ++ visited dir es
  visited dir (cons (special name) es) = visited_entry dir (special name) ++ visited dir es

-- The list holds the path.
abbrev pub Holds : List Text → Text → Type 0
Holds [] p = ⊥
Holds (q ∷ qs) p = (p ≡ q) ⊎ Holds qs p

Holds-left : (xs ys : List Text) (p : Text) → Holds xs p → Holds (xs ++ ys) p
Holds-left [] ys p h = absurd h
Holds-left (x ∷ xs) ys p (inl e) = inl e
Holds-left (x ∷ xs) ys p (inr h) = inr (Holds-left xs ys p h)

Holds-right : (xs ys : List Text) (p : Text) → Holds ys p → Holds (xs ++ ys) p
Holds-right [] ys p h = h
Holds-right (x ∷ xs) ys p h = inr (Holds-right xs ys p h)

module _ (mktime : Tm → ℤ) where
  -- A file is no older than a time, or has no time that the search would take.
  abbrev pub NotBefore : ℤ → Text → Type 0
  NotBefore t p =
      (eq_ℤ (file_name_to_epoch mktime p) max_time_t ≡ true) ⊎ Le_ℤ t (file_name_to_epoch mktime p)

  -- What a walk over some files does to the oldest so far: it is at least as old as it was and as
  -- each of the files, and it is either unchanged or one of the files with its time.
  pub record IsOldest (files : List Text) (o o' : Oldest) : Type 0 where
    pub before : Le_ℤ o'.time o.time
    pub each : All (NotBefore o'.time) files
    pub found : (o' ≡ o) ⊎ (Holds files o'.path × (o'.time ≡ file_name_to_epoch mktime o'.path))

  IsOldest-refl : (o : Oldest) → IsOldest [] o o
  IsOldest-refl o = record { before = ltb_ℤ_irrefl o.time; each = tt; found = inl refl }

  later-All : (t u : ℤ) (xs : List Text) → Le_ℤ u t → All (NotBefore t) xs → All (NotBefore u) xs
  later-All t u [] h a = tt
  later-All t u (x ∷ xs) h (inl e, as') = (inl e, later-All t u xs h as')
  later-All t u (x ∷ xs) h (inr l, as') =
      (inr (ltb_ℤ-le_trans u t (file_name_to_epoch mktime x) h l), later-All t u xs h as')

  All-append :
      (t : ℤ) (xs ys : List Text)
      → All (NotBefore t) xs
      → All (NotBefore t) ys
      → All (NotBefore t) (xs ++ ys)
  All-append t [] ys a b = b
  All-append t (x ∷ xs) ys (a, as') b = (a, All-append t xs ys as' b)

  IsOldest-trans :
      {xs ys : List Text} {o p q : Oldest}
      → IsOldest xs o p
      → IsOldest ys p q
      → IsOldest (xs ++ ys) o q
  IsOldest-trans {xs} {ys} {o} {p} {q} a b = record {
    before = ltb_ℤ-le_trans q.time p.time o.time b.before a.before;
    each = All-append q.time xs ys (later-All p.time q.time xs b.before a.each) b.each;
    found = elim b.found [
      | inl e ↦ rw e (elim a.found [ inl e' ↦ inl e' | inr (h, t) ↦ inr (Holds-left xs ys _ h, t) ])
      | inr (h, t) ↦ inr (Holds-right xs ys _ h, t)
    ];
  }

  older-IsOldest : (p : Text) (o : Oldest) → IsOldest (p ∷ []) o (older mktime p o)
  unfolding older
  older-IsOldest p o = elim (Bool-cases (eq_ℤ t max_time_t)) [
    | inl never ↦
        rw never (record { before = ltb_ℤ_irrefl o.time; each = (inl never, tt); found = inl refl })
    | inr dated ↦ elim (Bool-cases (ltb_ℤ t o.time)) [
      | inl less ↦
          rw (dated, less)
            (record {
              before = ltb_ℤ_asymm t o.time less;
              each = (inr (ltb_ℤ_irrefl t), tt);
              found = inr (inl refl, refl);
            })
      | inr not_less ↦
          rw (dated, not_less)
            (record { before = ltb_ℤ_irrefl o.time; each = (inr not_less, tt); found = inl refl })
    ]
  ]
    where
      t : ℤ
      t = file_name_to_epoch mktime p

  mutual
    unfolding find_oldest_entry find_oldest_entries visited_entry visited

    entry-IsOldest :
        (dir : Text) (e : Entry) (o : Oldest)
        → IsOldest (visited_entry dir e) o (find_oldest_entry mktime dir e o)
    entry-IsOldest dir (unreadable name) o = IsOldest-refl o
    entry-IsOldest dir (regular name) o = elim (Bool-cases (is_skipped name)) [
      | inl s ↦ rw s (IsOldest-refl o)
      | inr n ↦ rw n (older-IsOldest (join_path dir name) o)
    ]
    entry-IsOldest dir (directory name opens es) o =
        elim (Bool-cases (is_skipped name || not opens)) [
          | inl s ↦ rw s (IsOldest-refl o)
          | inr n ↦ rw n (entries-IsOldest (join_path dir name) es o)
        ]
    entry-IsOldest dir (special name) o = IsOldest-refl o

    entries-IsOldest :
        (dir : Text) (es : Entries) (o : Oldest)
        → IsOldest (visited dir es) o (find_oldest_entries mktime dir es o)
    entries-IsOldest dir nil o = IsOldest-refl o
    entries-IsOldest dir (cons (unreadable name) es) o = IsOldest-refl o
    entries-IsOldest dir (cons (regular name) es) o =
        IsOldest-trans (entry-IsOldest dir (regular name) o) (entries-IsOldest dir es _)
    entries-IsOldest dir (cons (directory name opens es') es) o =
        IsOldest-trans (entry-IsOldest dir (directory name opens es') o) (entries-IsOldest dir es _)
    entries-IsOldest dir (cons (special name) es) o =
        IsOldest-trans (entry-IsOldest dir (special name) o) (entries-IsOldest dir es _)

  dated-All :
      (t : ℤ) (xs : List Text)
      → Le_ℤ t max_time_t
      → All (NotBefore t) xs
      → All (λ p. Le_ℤ t (file_name_to_epoch mktime p)) xs
  dated-All t [] h a = tt
  dated-All t (x ∷ xs) h (inl e, as') =
      (eq_ℤ-le t (file_name_to_epoch mktime x) max_time_t e h, dated-All t xs h as')
  dated-All t (x ∷ xs) h (inr l, as') = (l, dated-All t xs h as')

  -- The search through a directory, from no file and the largest time, gives a time that is at
  -- most that of every regular file it comes to, and either no path or the path of one of these
  -- files with its time.
  pub find_oldest_entries-oldest :
      (dir : Text) (es : Entries)
      → let start : Oldest = record { path = []; time = max_time_t } in
        let o = find_oldest_entries mktime dir es start in
        All (λ p. Le_ℤ o.time (file_name_to_epoch mktime p)) (visited dir es)
        × ((o ≡ start)
            ⊎ (Holds (visited dir es) o.path × (o.time ≡ file_name_to_epoch mktime o.path)))
  find_oldest_entries-oldest dir es =
      let start : Oldest = record { path = []; time = max_time_t } in
      let w = entries-IsOldest dir es start in
      (dated-All _ (visited dir es) w.before w.each, w.found)
