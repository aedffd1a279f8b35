-- ===== src/Retention/Explained.antt =====
-- Nothing is removed that the trail does not explain (dlpduck/retention.py, `apply_retention`).
use dlpduck.Prelude.{
  ℕ, String, ◌≡◌, refl, Bool, true, false, not, ◌&&◌, ◌||◌, List, [], ◌∷◌, arith, str_eq, eq_iff,
  keep_if, any_of, any_of-append,
}
use dlpduck.Run.Does.{
  Ended, Does, Does-pure, Does-if, Does-durable, Does-bind, Ended-weaken, Does-map,
}
use dlpduck.Retention.{
  RetentionPlan, RetentionEvent, started, applied, Disk, tell, is_entry, remove_folder, remove_all,
  checkpoint_trim, is_nil, apply_plan, apply_retention,
}

module _ (store name : String) where
  abbrev pub is_present : Disk → Bool
  is_present d = any_of (is_entry store name) d.present

  abbrev pub is_named : List String → Bool
  is_named names = any_of (λ (k : String). str_eq k name) names

  -- An event that says that the removal of the directory has begun.
  abbrev pub announces : RetentionEvent → Bool
  announces (started s cutoff names) = str_eq s store && is_named names
  announces (applied s cutoff names) = false

  abbrev pub is_announced : Disk → Bool
  is_announced d = any_of announces d.trail

  abbrev pub is_planned : List RetentionPlan → Bool
  is_planned ps = any_of (λ (p : RetentionPlan). str_eq p.store store && is_named p.eligible) ps

  -- The directory is there, or its removal was announced.
  abbrev pub IsExplained : Disk → Type 0
  IsExplained d = (is_present d || is_announced d) ≡ true

  any_of-keep_if :
      (s k : String) (es : List (String × String))
      → any_of (is_entry store name) (keep_if (λ e. not (is_entry s k e)) es)
        ≡ (any_of (is_entry store name) es && not (str_eq s store && str_eq k name))
  any_of-keep_if s k [] = refl
  any_of-keep_if s k (e ∷ es) = ground (
    arith,
    eq_iff e.0 s,
    eq_iff e.1 k,
    eq_iff e.0 store,
    eq_iff e.1 name,
    eq_iff s store,
    eq_iff k name,
    any_of-keep_if s k es,
  )

  -- Still there only if it was there, and then not under one of these names.
  abbrev Standing : Bool → Disk → Type 0
  Standing there d = IsExplained d × (is_present d ≡ there)

  removed :
      (s k : String) (names : List String) (there : Bool) (d : Disk)
      → Standing there d × ((str_eq s store && is_named (k ∷ names)) ≡ true → is_announced d ≡ true)
      → Standing (there && not (str_eq s store && str_eq k name)) (remove_folder s k d)
        × ((str_eq s store && is_named names) ≡ true → is_announced (remove_folder s k d) ≡ true)
  removed s k names there d h = (
    (
      ground (arith, h.0.0, h.0.1, h.1, any_of-keep_if s k d.present),
      ground (arith, h.0.1, any_of-keep_if s k d.present),
    ),
    λ q. h.1 (ground (arith, q)),
  )

  remove_all-Does :
      (s : String) (names : List String) (there : Bool)
      → Does IsExplained
          (λ d.
            Standing there d × ((str_eq s store && is_named names) ≡ true → is_announced d ≡ true))
          (remove_all s names)
          (λ u d. Standing (there && not (str_eq s store && is_named names)) d)
  unfolding remove_all
  remove_all-Does s [] there = Does-pure tt (λ d h. ground (arith, h.0.0, h.0.1))
  remove_all-Does s (k ∷ names) there =
      Does-bind
        {Mid = λ u d.
          Standing (there && not (str_eq s store && str_eq k name)) d
          × ((str_eq s store && is_named names) ≡ true → is_announced d ≡ true)}
        _ _ (Does-durable _ (λ d h. h.0.0) (removed s k names there))
        (λ u.
          Does-map (λ d h. h) (λ v d h. (h.0, ground (arith, h.1)))
            (remove_all-Does s names (there && not (str_eq s store && str_eq k name))))

  nil_named : (names : List String) → is_nil names ≡ true → is_named names ≡ false
  nil_named [] h = refl
  nil_named (k ∷ names) h = absurd (cc h)

  announced-tell :
      (e : RetentionEvent) (d : Disk) → is_announced (tell e d) ≡ (is_announced d || announces e)
  announced-tell e d = ground (arith, any_of-append announces d.trail (e ∷ []))

  checkpoint_trim-Does :
      (p : RetentionPlan) (there : Bool) (Given : Bool)
      → Does IsExplained
          (λ d. Standing there d × (Given ≡ true → is_announced d ≡ true))
          (checkpoint_trim p)
          (λ u d. Standing there d × (Given ≡ true → is_announced d ≡ true))
  checkpoint_trim-Does p there g =
      Does-if (str_eq p.store "audit") _ _ (λ e. Does-durable _ (λ d h. h.0.0) (λ d h. h))
        (λ e. Does-pure tt (λ d h. h))

  apply_plan-Does :
      (p : RetentionPlan) (there : Bool)
      → Does IsExplained
          (Standing there)
          (apply_plan p)
          (λ k d. Standing (there && not (str_eq p.store store && is_named p.eligible)) d)
  unfolding apply_plan
  apply_plan-Does p there =
      Does-if (is_nil p.eligible) _ _
        (λ e. Does-pure 0 (λ d h. (h.0, ground (arith, h.1, nil_named p.eligible e))))
        (λ e.
          let covered = str_eq p.store store && is_named p.eligible in
          Does-bind {Mid = λ u d. Standing there d × (covered ≡ true → is_announced d ≡ true)} _ _
            (Does-durable _ (λ d h. h.0)
              (λ d h. (
                (ground (arith, h.0, announced-tell (started p.store p.cutoff p.eligible) d), h.1),
                λ q. ground (arith, q, announced-tell (started p.store p.cutoff p.eligible) d),
              )))
            (λ u. Does-bind _ _ (checkpoint_trim-Does p there covered) (λ u.
              Does-bind _ _ (remove_all-Does p.store p.eligible there) (λ u.
                Does-bind {Mid = λ u d. Standing (there && not covered) d} _ _
                  (Does-durable _ (λ d h. h.0)
                    (λ d h. (
                      ground (arith, h.0, announced-tell (applied p.store p.cutoff p.eligible) d),
                      h.1,
                    )))
                  (λ u. Does-pure _ (λ d h. h))))))

  apply_retention-Does :
      (ps : List RetentionPlan) (there : Bool)
      → Does IsExplained
          (Standing there)
          (apply_retention ps)
          (λ k d. Standing (there && not (is_planned ps)) d)
  unfolding apply_retention
  apply_retention-Does [] there = Does-pure 0 (λ d h. (h.0, ground (arith, h.1)))
  apply_retention-Does (p ∷ ps) there =
      let left = there && not (str_eq p.store store && is_named p.eligible) in
      Does-bind _ _ (apply_plan-Does p there) (λ k.
        Does-bind _ _ (apply_retention-Does ps left)
          (λ j. Does-pure _ (λ d h. (h.0, ground (arith, h.1)))))

-- Wherever retention is cut, a directory that was there before is still there, or an event on the
-- trail that was written before its removal names it with its store. A run that returns has left
-- exactly the directories that were there and that no plan names.
pub apply_retention-IsExplained :
    (store name : String) (ps : List RetentionPlan) (n : ℕ) (d : Disk)
    → is_present store name d ≡ true
    → Ended
        (IsExplained store name)
        (λ k d'.
          IsExplained store name d' × (is_present store name d' ≡ not (is_planned store name ps)))
        (apply_retention ps n d)
apply_retention-IsExplained store name ps n d h =
    Ended-weaken (λ d' k. k) (λ j d' k. k) (apply_retention ps n d)
      ((apply_retention-Does store name ps true).at n d (ground (arith, h), h))
