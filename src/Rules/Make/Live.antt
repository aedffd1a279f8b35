-- ===== src/Rules/Make/Live.antt =====
-- What every rule that `Rule.__init__` makes is like (dlpduck/rules.py).
use mathlib.Core.Path.{subst}
use dlpduck.Prelude.{
  ℕ, suc, ◌+◌, String, ◌≡◌, refl, inl, inr, Bool, true, false, Option, none, some, List, [], ◌∷◌,
  arith, if◌then◌else◌, Bool-cases, All,
}
use dlpduck.Document.{native, TextLine}
use dlpduck.Unicode.{Unicode}
use dlpduck.Rules.{Rule, position, in_range}
use dlpduck.Rules.Loading.{
  Entry, RuleFile, Loaded, collected, refused, raises_type_error, no_fuel, load_ruleset,
}
use dlpduck.Rules.Make.{
  Yaml, string, Config, Made, ok, config_error, type_error, ◌>>=◌, codes, is_rule_id, checked_id,
  is_after, line_window, make_rule, with_rule, make_rules, make_loaded, load_rules,
}

-- Under the bind, what came first was made.
bind-ok :
    {A B : Type 0} (m : Made A) (f : A → Made B) (b : B)
    → (m >>= f) ≡ ok b
    → (a : A) × ((m ≡ ok a) × (f a ≡ ok b))
unfolding ◌>>=◌
bind-ok (ok a) f b h = (a, (refl, h))
bind-ok (config_error e) f b h = absurd (cc h)
bind-ok type_error f b h = absurd (cc h)

-- Whatever the code makes has the property.
pub record Makes {A : Type 0} (m : Made A) (Post : A → Type 0) : Type 0 where
  pub at : (a : A) → m ≡ ok a → Post a

Makes-bind :
    {A B : Type 0} {Post : B → Type 0} (Mid : A → Type 0) (m : Made A) (f : A → Made B)
    → Makes m Mid
    → ((a : A) → Mid a → Makes (f a) Post)
    → Makes (m >>= f) Post
Makes-bind Mid m f k h = record {
  at = λ b e. let (a, (made, rest)) = bind-ok m f b e in (h a (k.at a made)).at b rest;
}

-- Nothing need be known of what comes first.
Makes-after :
    {A B : Type 0} {Post : B → Type 0} (m : Made A) (f : A → Made B)
    → ((a : A) → Makes (f a) Post)
    → Makes (m >>= f) Post
Makes-after m f h = Makes-bind (λ a. Unit) m f (record { at = λ a e. tt }) (λ a u. h a)

Makes-ok : {A : Type 0} {Post : A → Type 0} (a : A) → Post a → Makes (ok a) Post
Makes-ok {A} {Post} a k = record { at = λ b e. subst Post (made b e) k }
  where
    made : (b : A) → ◌≡◌ {A = Made A} (ok a) (ok b) → a ≡ b
    made b e = cc e

-- A line with as many lines before it as after it on its page.
abbrev middle_line : ℕ → TextLine
middle_line n = record {
  page_number = 0;
  line_number = n;
  line_on_page = n;
  lines_on_page = suc (n + n);
  text = [];
  source = native;
  confidence = none;
}

abbrev lowest : Option ℕ → ℕ
lowest none = 0
lowest (some m) = m

checked_id-IsRuleId :
    (v : Option Yaml) (s : String) → checked_id v ≡ ok s → is_rule_id (codes s) ≡ true
unfolding checked_id
checked_id-IsRuleId (some (string t)) s h = elim (Bool-cases (is_rule_id (codes t))) [
  | inl e ↦
      let same : t ≡ s = ground (arith, h, e) in subst (λ k. is_rule_id (codes k) ≡ true) same e
  | inr e ↦ absurd (ground (arith, h, e))
]
checked_id-IsRuleId v s h = absurd (cc h)

line_window-IsOpen : (cfg : Config) → Makes (line_window cfg) (λ w. is_after w.0 w.1 ≡ false)
unfolding line_window
line_window-IsOpen cfg =
    Makes-after _ _ (λ m. Makes-after _ _ (λ n. record { at = λ w e. opened m n w e }))
  where
    opened :
        (m n : Option ℕ) (w : Option ℕ × Option ℕ)
        → (if is_after m n then config_error "min_line" else ok (m, n)) ≡ ok w
        → is_after w.0 w.1 ≡ false
    opened m n w h = elim (Bool-cases (is_after m n)) [
      | inl e ↦ absurd (ground (arith, h, e))
      | inr e ↦
          let same : (m, n) ≡ w = ground (arith, h, e) in
          subst (λ (v : Option ℕ × Option ℕ). is_after v.0 v.1 ≡ false) same e
    ]

module _ {P : Type 0} (u : Unicode) (compile : String → Option P) (shown : Yaml → String) where
  -- Its id passes, and its window lets some line through.
  abbrev pub IsLive : Rule P → Type 0
  IsLive r = (is_rule_id (codes r.id) ≡ true) × ((line : TextLine) × (in_range r line ≡ true))

  in_range-window :
      (r : Rule P)
      → is_after r.min_line r.max_line ≡ false
      → (line : TextLine) × (in_range r line ≡ true)
  unfolding in_range position
  in_range-window r h = (middle_line (lowest r.min_line), ground (arith, h))

  make_rule-IsLive : (cfg : Config) → Makes (make_rule u compile shown cfg) IsLive
  unfolding make_rule
  make_rule-IsLive cfg =
      Makes-bind (λ id. is_rule_id (codes id) ≡ true) (checked_id cfg.id) _
        (record { at = checked_id-IsRuleId cfg.id })
        (λ id passes. Makes-after _ _ (λ name. Makes-after _ _ (λ pattern. Makes-after _ _ (λ p.
          Makes-after _ _ (λ severity. Makes-after _ _ (λ action. Makes-after _ _ (λ scope.
            Makes-after _ _ (λ line_scope.
              Makes-bind (λ w. is_after w.0 w.1 ≡ false) (line_window cfg) _
                (line_window-IsOpen cfg)
                (λ window open_window. Makes-after _ _ (λ validator. Makes-after _ _ (λ mask_keep.
                  Makes-after _ _
                    (λ context. Makes-ok _ (passes, in_range-window _ open_window)))))))))))))

  abbrev pub IsInForce : Rule P → Type 0
  IsInForce r = (r.enabled ≡ true) × IsLive r

  with_rule-IsInForce :
      (r : Rule P) (rs : List (Rule P))
      → IsLive r
      → All IsInForce rs
      → All IsInForce (with_rule u compile shown r rs)
  with_rule-IsInForce r rs h all = kept r.enabled refl
    where
      kept : (b : Bool) → r.enabled ≡ b → All IsInForce (if b then r ∷ rs else rs)
      kept true e = ((e, h), all)
      kept false e = all

  make_rules-IsInForce :
      (cs : List (String × Config)) → Makes (make_rules u compile shown cs) (All IsInForce)
  unfolding make_rules
  make_rules-IsInForce [] = Makes-ok [] tt
  make_rules-IsInForce ((rid, cfg) ∷ more) =
      Makes-bind IsLive (make_rule u compile shown cfg) _ (make_rule-IsLive cfg) (λ r live.
        Makes-bind (All IsInForce) (make_rules u compile shown more) _ (make_rules-IsInForce more)
          (λ rs all. Makes-ok _ (with_rule-IsInForce r rs live all)))

  make_loaded-IsInForce :
      (l : Loaded Config) → Makes (make_loaded u compile shown l) (All IsInForce)
  make_loaded-IsInForce (collected cs) = make_rules-IsInForce cs
  make_loaded-IsInForce (refused e) = record { at = λ rs h. absurd (cc h) }
  make_loaded-IsInForce raises_type_error = record { at = λ rs h. absurd (cc h) }
  make_loaded-IsInForce no_fuel = record { at = λ rs h. absurd (cc h) }

  -- Every rule of a ruleset that is loaded, whatever its files hold, is enabled, has an id that
  -- passes the pattern of ids, and has a window that lets some line through: for its bounds and
  -- its scope there is a line at which `in_range` holds.
  pub load_rules-IsInForce :
      (resolve_include : String → String → Option String) (parent : String → String)
      (files : List (String × RuleFile Config)) (entries : List (Entry Config)) (base_dir : String)
      (rs : List (Rule P))
      → load_rules u compile shown resolve_include parent files entries base_dir ≡ ok rs
      → All IsInForce rs
  unfolding load_rules
  load_rules-IsInForce resolve_include parent files entries base_dir rs e =
      (make_loaded-IsInForce (load_ruleset resolve_include parent files entries base_dir)).at rs e
