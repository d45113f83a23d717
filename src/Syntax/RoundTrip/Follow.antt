-- ===== src/Syntax/RoundTrip/Follow.antt =====
-- packages/core/src: the tokens with which statements begin, and those behind blocks.
use valax_wearedevs_deobfusc.Prelude.{◌≡◌, refl, true, false}
use valax_wearedevs_deobfusc.Bytes.Defs.{Text}
use valax_wearedevs_deobfusc.Syntax.Tokens.{
  Kind, keyword, ident, type_name, k_local, k_if, k_else, k_elseif, k_for, k_do, k_while, k_repeat,
  k_until, k_return, k_break, k_continue, eof, k_function, k_end,
}
use valax_wearedevs_deobfusc.Syntax.Result.{skip, Kinds, peek, is, is_any}
use valax_wearedevs_deobfusc.Syntax.Parse.Heads.{binary_precedence, suffix_of, no_suffix}
use valax_wearedevs_deobfusc.Syntax.Parse.Statements.{block_ends, return_ends, assignment_signs}
use valax_wearedevs_deobfusc.Syntax.RoundTrip.Nodes.{EndsList}

-- The first tokens of the statements that the generator writes.
pub data Begins {N : Type 0} : Kind N → Type 0 where
  begins_name : (x : Text) → Begins (ident x)
  begins_local : Begins (keyword k_local)
  begins_function : Begins (keyword k_function)
  begins_if : Begins (keyword k_if)
  begins_while : Begins (keyword k_while)
  begins_repeat : Begins (keyword k_repeat)
  begins_do : Begins (keyword k_do)
  begins_for : Begins (keyword k_for)
  begins_break : Begins (keyword k_break)
  begins_continue : Begins (keyword k_continue)
  begins_return : Begins (keyword k_return)

-- What stands behind a block.
pub data BlockEnds {N : Type 0} : Kind N → Type 0 where
  ends_file : BlockEnds eof
  ends_end : BlockEnds (keyword k_end)
  ends_elseif : BlockEnds (keyword k_elseif)
  ends_else : BlockEnds (keyword k_else)
  ends_until : BlockEnds (keyword k_until)

-- What stands behind a statement.
pub data Follows {N : Type 0} (k : Kind N) : Type 0 where
  follows_end : BlockEnds k → Follows k
  follows_begin : Begins k → Follows k

-- A token that no statement before it takes.
pub record Free {N : Type 0} (k : Kind N) : Type 0 where
  pub no_operator : binary_precedence k ≡ 0
  pub no_suffix_follows : suffix_of k ≡ no_suffix
  pub no_comma : is "," k ≡ false
  pub no_semicolon : is ";" k ≡ false
  pub no_equals : is "=" k ≡ false
  pub no_sign : is_any assignment_signs k ≡ false

module _ {N : Type 0} where
  Free-BlockEnds : {k : Kind N} → BlockEnds k → Free k
  unfolding binary_precedence suffix_of is type_name
  Free-BlockEnds ends_file = record {
    no_operator = refl;
    no_suffix_follows = refl;
    no_comma = refl;
    no_semicolon = refl;
    no_equals = refl;
    no_sign = refl;
  }
  Free-BlockEnds ends_end = record {
    no_operator = refl;
    no_suffix_follows = refl;
    no_comma = refl;
    no_semicolon = refl;
    no_equals = refl;
    no_sign = refl;
  }
  Free-BlockEnds ends_elseif = record {
    no_operator = refl;
    no_suffix_follows = refl;
    no_comma = refl;
    no_semicolon = refl;
    no_equals = refl;
    no_sign = refl;
  }
  Free-BlockEnds ends_else = record {
    no_operator = refl;
    no_suffix_follows = refl;
    no_comma = refl;
    no_semicolon = refl;
    no_equals = refl;
    no_sign = refl;
  }
  Free-BlockEnds ends_until = record {
    no_operator = refl;
    no_suffix_follows = refl;
    no_comma = refl;
    no_semicolon = refl;
    no_equals = refl;
    no_sign = refl;
  }

  Free-Begins : {k : Kind N} → Begins k → Free k
  unfolding binary_precedence suffix_of is type_name
  Free-Begins (begins_name x) = record {
    no_operator = refl;
    no_suffix_follows = refl;
    no_comma = refl;
    no_semicolon = refl;
    no_equals = refl;
    no_sign = refl;
  }
  Free-Begins begins_local = record {
    no_operator = refl;
    no_suffix_follows = refl;
    no_comma = refl;
    no_semicolon = refl;
    no_equals = refl;
    no_sign = refl;
  }
  Free-Begins begins_function = record {
    no_operator = refl;
    no_suffix_follows = refl;
    no_comma = refl;
    no_semicolon = refl;
    no_equals = refl;
    no_sign = refl;
  }
  Free-Begins begins_if = record {
    no_operator = refl;
    no_suffix_follows = refl;
    no_comma = refl;
    no_semicolon = refl;
    no_equals = refl;
    no_sign = refl;
  }
  Free-Begins begins_while = record {
    no_operator = refl;
    no_suffix_follows = refl;
    no_comma = refl;
    no_semicolon = refl;
    no_equals = refl;
    no_sign = refl;
  }
  Free-Begins begins_repeat = record {
    no_operator = refl;
    no_suffix_follows = refl;
    no_comma = refl;
    no_semicolon = refl;
    no_equals = refl;
    no_sign = refl;
  }
  Free-Begins begins_do = record {
    no_operator = refl;
    no_suffix_follows = refl;
    no_comma = refl;
    no_semicolon = refl;
    no_equals = refl;
    no_sign = refl;
  }
  Free-Begins begins_for = record {
    no_operator = refl;
    no_suffix_follows = refl;
    no_comma = refl;
    no_semicolon = refl;
    no_equals = refl;
    no_sign = refl;
  }
  Free-Begins begins_break = record {
    no_operator = refl;
    no_suffix_follows = refl;
    no_comma = refl;
    no_semicolon = refl;
    no_equals = refl;
    no_sign = refl;
  }
  Free-Begins begins_continue = record {
    no_operator = refl;
    no_suffix_follows = refl;
    no_comma = refl;
    no_semicolon = refl;
    no_equals = refl;
    no_sign = refl;
  }
  Free-Begins begins_return = record {
    no_operator = refl;
    no_suffix_follows = refl;
    no_comma = refl;
    no_semicolon = refl;
    no_equals = refl;
    no_sign = refl;
  }

  pub Free-Follows : {k : Kind N} → Follows k → Free k
  Free-Follows (follows_end h) = Free-BlockEnds h
  Free-Follows (follows_begin h) = Free-Begins h

  pub any_end :
      {k : Kind N} → BlockEnds k → (is_any block_ends k ≡ true) × (is_any return_ends k ≡ true)
  unfolding is type_name
  any_end ends_file = (refl, refl)
  any_end ends_end = (refl, refl)
  any_end ends_elseif = (refl, refl)
  any_end ends_else = (refl, refl)
  any_end ends_until = (refl, refl)

  pub no_end-Begins : {k : Kind N} → Begins k → is_any block_ends k ≡ false
  unfolding is type_name
  no_end-Begins (begins_name x) = refl
  no_end-Begins begins_local = refl
  no_end-Begins begins_function = refl
  no_end-Begins begins_if = refl
  no_end-Begins begins_while = refl
  no_end-Begins begins_repeat = refl
  no_end-Begins begins_do = refl
  no_end-Begins begins_for = refl
  no_end-Begins begins_break = refl
  no_end-Begins begins_continue = refl
  no_end-Begins begins_return = refl

  pub EndsList-Free : (ks : Kinds N) → Free (peek ks) → EndsList ks
  EndsList-Free ks h = record {
    ends = record { no_operator = h.no_operator; no_suffix_follows = h.no_suffix_follows };
    no_comma = h.no_comma;
  }

  pub skip-Free : (ks : Kinds N) → Free (peek ks) → skip ";" ks ≡ ks
  skip-Free ks h = rw (h.no_semicolon) refl
