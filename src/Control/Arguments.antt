-- ===== src/Control/Arguments.antt =====
-- How `add` of the control program takes its arguments apart.
use Prim.Native.String.{◌++◌}
use Prim.Native.String as S
use text.Mathlib.TextLemmas.{nil-append, cons-append}
use nonsense.Base.{◌++◌ as ◌⧺◌}
use nonsense.Base.{
  String, ◌≡◌, refl, ap, ◌∙◌, true, Option, none, some, List, [], ◌∷◌, map, arith, All,
}
use nonsense.Base.Text.{cut, lacks}
use nonsense.Config.Names.{ParameterValue}
use nonsense.Control.Calls.{Ended, calls, fails, new_entity}
use nonsense.Control.Verbs.{split_arguments, add_call, add_handler}

equals : (after : String) → "=" ++ after ≡ S.◌∷◌ "=" after
equals after = cons-append "=" S.[] after ∙ ap (S.◌∷◌ "=") (nil-append after)

-- The text before the first occurrence, and the text behind it.
cut-join :
    (before after : String)
    → lacks b'=' before ≡ true
    → cut b'=' (before ++ "=" ++ after) ≡ some (before, after)
unfolding cut
cut-join S.[] after l = ap (cut b'=') (nil-append ("=" ++ after) ∙ equals after)
cut-join (S.◌∷◌ x before) after l =
    rw (cons-append x before ("=" ++ after)) (ground (arith, cut-join before after))

cut-none : (s : String) → lacks b'=' s ≡ true → cut b'=' s ≡ none
unfolding cut
cut-none S.[] l = refl
cut-none (S.◌∷◌ x s) l = ground (arith, cut-none s)

-- The argument of a parameter.
abbrev pub argument_of : ParameterValue → String
argument_of p = p.parameter ++ "=" ++ p.value

split_arguments-map :
    (ps : List ParameterValue) (send : List ParameterValue → Ended)
    → All (λ (p : ParameterValue). lacks b'=' p.parameter ≡ true) ps
    → split_arguments (map argument_of ps) send ≡ send ps
unfolding split_arguments
split_arguments-map [] send l = refl
split_arguments-map (p ∷ ps) send (l, ls) =
    rw (split_arguments, cut-join p.parameter p.value l)
      (split_arguments-map ps
        (λ qs. send (record { parameter = p.parameter; value = p.value } ∷ qs)) ls)

-- `add` with a name and arguments of the form parameter=value, where no parameter has a '=' and
-- there is at least one, makes one call: Add, of the running configuration, or of the transaction
-- whose token is given, with the name and these parameters and values in order.
pub add_handler-arguments :
    (token name : String) (p : ParameterValue) (ps : List ParameterValue)
    → All (λ (q : ParameterValue). lacks b'=' q.parameter ≡ true) (p ∷ ps)
    → (add_handler none (name ∷ map argument_of (p ∷ ps))
        ≡ calls (record {
          path = "/info/griwes/nonsense/configuration/running";
          interface = "info.griwes.nonsense.Config";
          method = "Add";
          payload = new_entity name (p ∷ ps);
        }))
      × (add_handler (some token) (name ∷ map argument_of (p ∷ ps))
          ≡ calls (record {
            path = "/info/griwes/nonsense" ++ "/configuration/transactions/" ++ token;
            interface = "info.griwes.nonsense.Transaction";
            method = "Add";
            payload = new_entity name (p ∷ ps);
          }))
unfolding add_handler
add_handler-arguments token name p ps l =
    let sent : (o : Option String)
        → add_handler o (name ∷ map argument_of (p ∷ ps))
          ≡ calls (add_call o (new_entity name (p ∷ ps))) =
      λ o. split_arguments-map (p ∷ ps) (λ qs. calls (add_call o (new_entity name qs))) l in
    (sent none, sent (some token))

abbrev pub refusal : String → Ended
refusal argument =
    fails ("Invalid argument '" ++ argument ++ "', must be in form 'parameter-name=value'.")

split_arguments-refusal :
    (ps : List ParameterValue) (bad : String) (rest : List String)
    (send : List ParameterValue → Ended)
    → All (λ (q : ParameterValue). lacks b'=' q.parameter ≡ true) ps
    → lacks b'=' bad ≡ true
    → split_arguments (map argument_of ps ⧺ bad ∷ rest) send ≡ refusal bad
unfolding split_arguments
split_arguments-refusal [] bad rest send l b = rw (split_arguments, cut-none bad b) refl
split_arguments-refusal (p ∷ ps) bad rest send (l, ls) b =
    rw (split_arguments, cut-join p.parameter p.value l)
      (split_arguments-refusal ps bad rest
        (λ qs. send (record { parameter = p.parameter; value = p.value } ∷ qs)) ls b)

-- `add` with an argument that has no '=', behind arguments of the form parameter=value, ends with
-- the error about the first such argument and makes no call, whatever stands behind it.
pub add_handler-refusal :
    (token : Option String) (name : String) (ps : List ParameterValue) (bad : String)
    (rest : List String)
    → All (λ (q : ParameterValue). lacks b'=' q.parameter ≡ true) ps
    → lacks b'=' bad ≡ true
    → add_handler token (name ∷ (map argument_of ps ⧺ bad ∷ rest)) ≡ refusal bad
unfolding add_handler
add_handler-refusal token name [] bad rest l b =
    split_arguments-refusal [] bad rest (λ qs. calls (add_call token (new_entity name qs))) l b
add_handler-refusal token name (p ∷ ps) bad rest l b =
    split_arguments-refusal (p ∷ ps) bad rest (λ qs. calls (add_call token (new_entity name qs))) l
      b
