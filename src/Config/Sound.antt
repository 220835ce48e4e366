-- ===== src/Config/Sound.antt =====
-- `config::add` as a whole: it keeps a configuration valid, and touches no other entity.
use nonsense.Base.{
  String, ◌≡◌, ◌⊎◌, inl, inr, refl, subst, sym, ◌∙◌, Bool, true, false, none, some, List, arith,
  str_eq, eq_iff, Bool-cases, Option-cases,
}
use nonsense.Base.Int.{is_negative}
use nonsense.Base.Action.{done}
use nonsense.Json.{JsonLib}
use nonsense.Config.Names.{ParameterValue}
use nonsense.Config.Validate.{get}
use nonsense.Config.Checks.{netns_key}
use nonsense.Config.Add.{Config, ConfigResult, add_entity, add}
use nonsense.Config.Kept.{Kept, fresh-KeepsUplinks, Kept-ValidEntity, Kept-OnlyEntity}
use nonsense.Config.Components.{ValidEntity}
use nonsense.Config.Valid.{
  metadata_key, ValidConfig, ValidConfig-OthersHaveRoles, Adds, add_entity-Adds,
}

module _ (json : JsonLib) (name : String) (ordinary : str_eq netns_key name ≡ false) where
  open json use {Value, string, is_object, find, find-other, is_object-string}

  pub of_other_name :
      (r : Value)
      → ValidEntity json name ordinary r
      → (other : String) (ord : str_eq netns_key other ≡ false) → name ≡ other
      → ValidEntity json other ord r
  of_other_name r v other ord e =
      subst (λ (n : String). (q : str_eq netns_key n ≡ false) → ValidEntity json n q r) e
        (λ q.
          subst (λ (p : str_eq netns_key name ≡ false). ValidEntity json name p r)
            (bools _ _ ordinary q) v)
        ord
    where
      bools : IsSet Bool
      bools = hlevel

  -- `add` refuses and changes nothing, or works on the configuration without the entity.
  add-cases :
      (ps : List ParameterValue) (c : Config json)
      → ((add json name ps c).1 ≡ c)
          × ((r : ConfigResult)
              → (add json name ps c).0 ≡ done r
              → is_negative r.error_code ≡ false
              → ⊥)
        ⊎ (c.mutable_ ≡ true)
          × (find c.configuration name ≡ none)
          × (add json name ps c ≡ (
            (add_entity json name ps c.configuration).0,
            record c { configuration = (add_entity json name ps c.configuration).1 },
          ))
  unfolding add
  add-cases ps c = elim (Bool-cases c.mutable_) [
    | inr m ↦ inl (ground arith, λ r e z. ground arith)
    | inl m ↦ elim (Option-cases (find c.configuration name)) [
      | inr (x, f) ↦ inl (ground arith, λ r e z. ground arith)
      | inl f ↦ inr (m, f, ground arith)
    ]
  ]

  module _ (ps : List ParameterValue) (c : Config json) (v : ValidConfig json c.configuration) where
    added : Adds json name ordinary c.configuration (add_entity json name ps c.configuration)
    added =
        add_entity-Adds json name ordinary ps c.configuration v.object_
          (ValidConfig-OthersHaveRoles json name ordinary c.configuration v)

    -- On a valid configuration, whatever `add` returns, and also where it stops the daemon: the
    -- configuration stays an object, every entity of another name is as it was, and the default
    -- network namespace is as it was, or was nobody's and is now the entity's. The name is not
    -- ":default-netns".
    pub add-Kept : Kept json name ordinary c.configuration (add json name ps c).1.configuration
    add-Kept = elim (add-cases ps c) [
      | inl (e, z) ↦ rw e (
          Kept-OnlyEntity json name ordinary c.configuration _
            (record { object_ = v.object_; others = λ j n. refl }))
      | inr (m, f, e) ↦ rw e added.0
    ]

    at_plain_key :
        (r : Value) (k : Kept json name ordinary c.configuration r)
        → find (get json r netns_key) "network" ≡ none
    at_plain_key r k = elim k.netns [
      | inl e ↦ ground (arith, v.netns_plain)
      | inr (z, e) ↦ ground (arith, find-other (string name) "network" (is_object-string name))
    ]

    module _ (plain : str_eq metadata_key name ≡ false) where
      valid_after :
          (r : Value)
          → find c.configuration name ≡ none
          → Kept json name ordinary c.configuration r
          → ValidEntity json name ordinary r
          → ValidConfig json r
      valid_after r f k e = record {
        object_ = k.object_;
        netns_plain = at_plain_key r k;
        metadata_plain =
            rw
              (
                k.others metadata_key
                    (ground (arith, eq_iff name metadata_key, eq_iff metadata_key name)) refl,
                get,
              )
              v.metadata_plain;
        entities = each;
      }
        where
          each :
              (other : String) (ord : str_eq netns_key other ≡ false) (x : Value)
              → str_eq metadata_key other ≡ false
              → find r other ≡ some x
              → ValidEntity json other ord r
          each other ord x m g = elim (Bool-cases (str_eq name other)) [
            | inl same ↦ of_other_name r e other ord ((eq_iff name other).0 same)
            | inr n ↦
                Kept-ValidEntity json name ordinary c.configuration r k
                  (fresh-KeepsUplinks json name ordinary c.configuration r k f) other ord n
                  (v.entities other ord x m (sym (k.others other n ord) ∙ g))
          ]

      -- If `add` succeeds on a valid configuration, it was allowed to write, the entity was not
      -- there, the entity is there as an object, and the configuration is valid again. The name is
      -- neither ":default-netns" nor "!metadata".
      pub add-ValidConfig :
          (result : ConfigResult)
          → (add json name ps c).0 ≡ done result
          → is_negative result.error_code ≡ false
          → (c.mutable_ ≡ true)
            × (find c.configuration name ≡ none)
            × (is_object (get json (add json name ps c).1.configuration name) ≡ true)
            × ValidConfig json (add json name ps c).1.configuration
      add-ValidConfig result h z = elim (add-cases ps c) [
        | inl (e, n) ↦ absurd (n result h z)
        | inr (m, f, e) ↦
            let a = added.1 result (ground (arith, e)) z in
            (m, f, rw e a.1, rw e (valid_after _ f added.0 a.0))
      ]
