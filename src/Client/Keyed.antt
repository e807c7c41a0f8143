-- ===== src/Client/Keyed.antt =====
-- What the managers of src/client share: configurations keyed by their names. The type of the configurations is a parameter, with the name that `GetBaseConfig` gives and with
-- `reflect.DeepEqual`.
use frpcv.Prelude.{
  if◌then◌else◌, Bool-cases, HasEq, Text, text_beq_iff, text_eq, nat_eq, ◌==◌, or_else, Dict,
  lookup, insert, lookup-insert, ◌≡◌, refl, sym, ap, ◌∙◌, inl, inr, Option, none, some, List, [],
  ◌∷◌,
}

pub record Configurer (C : Type 0) : Type 0 where
  pub name : C → Text
  pub deep_equal : HasEq C

module _ {C : Type 0} (cfgr : Configurer C) where
  -- lo.KeyBy: of two configurations with one name, the later is kept.
  unfoldable pub key_by : List C → Dict Text C → Dict Text C
  key_by [] d = d
  key_by (c ∷ cs) d = key_by cs (insert (cfgr.name c) c d)

  -- The first configuration with the name.
  unfoldable pub find_cfg : Text → List C → Option C
  find_cfg n [] = none
  find_cfg n (c ∷ cs) = if cfgr.name c == n then some c else find_cfg n cs

  abbrev pub AreDistinct : List C → Type 0
  AreDistinct [] = Unit
  AreDistinct (c ∷ cs) = (find_cfg (cfgr.name c) cs ≡ none) × AreDistinct cs

  pub lookup-key_by :
      (n : Text) (cs : List C) (d : Dict Text C)
      → AreDistinct cs
      → lookup n (key_by cs d) ≡ or_else (find_cfg n cs) (lookup n d)
  unfolding key_by find_cfg
  lookup-key_by n [] d h = refl
  lookup-key_by n (c ∷ cs) d (f, h) =
      lookup-key_by n cs (insert (cfgr.name c) c d) h
      ∙ ap (or_else (find_cfg n cs)) (lookup-insert (cfgr.name c) n c d)
      ∙ elim (Bool-cases (cfgr.name c == n)) [
        | inr e ↦ rw e refl
        | inl e ↦
            let same : cfgr.name c ≡ n = (text_beq_iff (cfgr.name c) n).0 e in
            let gone : find_cfg n cs ≡ none = sym (ap (λ m. find_cfg m cs) same) ∙ f in
            rw (e, gone) refl
      ]
