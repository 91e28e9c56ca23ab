-- ===== src/Schema/Parts.antt =====
-- The writers of c/util/schema_gbnf.h for the parts of a schema fail where the part is not supported.
use moty.Base.{
  ℕ, ◌≡◌, refl, ap, ◌∙◌, inl, inr, Bool, true, false, not, ◌&&◌, ◌||◌, Option, none, some, List,
  suc, length, arith, ◌==◌, if◌then◌else◌, Bool-cases,
}
use moty.Json.Values.{
  Jval, j_null, j_bool, j_num, j_str, j_arr, j_obj, Kids, no_kids, kid, Fields, no_fields, field,
}
use moty.Json.Access.{c_str, same_str}
use moty.Schema.Texts.{bar, open_group, colon, next_member, open_object, open_array, open_optional}
use moty.Schema.Writer.{
  Fault, not_in_required, not_every_property, enum_member_type, SgbCtx, has_failed, sgb_put,
  string_lit,
}
use moty.Schema.Values.{
  kids_count, fields_count, lists_name, all_listed, required_fault, min_items_1, min_items_more,
  sgb_const, enum_more, sgb_enum, members_more, put_members, sgb_object, put_items, sgb_array,
}
use moty.Schema.Supported.{
  is_const, all_const, enum_ok, names_of, strings_of, is_in, all_in, required_ok, min_items_ok,
  all_ok, object_ok, array_ok,
}

-- It fails if it failed before, or if what it is to write is not supported.
abbrev pub Tells : SgbCtx → SgbCtx → Bool → Type 0
Tells C D good = has_failed D ≡ (has_failed C || not good)

pub or_false : (b : Bool) → b ≡ (b || false)
or_false true = refl
or_false false = refl

pub or_true : (b : Bool) → true ≡ (b || true)
or_true true = refl
or_true false = refl

or_or_not : (b x y : Bool) → ((b || not x) || not y) ≡ (b || not (x && y))
or_or_not true x y = refl
or_or_not false true y = refl
or_or_not false false y = refl

pub written : (C : SgbCtx) → Tells C C true
written C = or_false (has_failed C)

-- Of what was to fail before, after a first part and after a second.
chained :
    (before between after x y : Bool)
    → between ≡ (before || not x)
    → after ≡ (between || not y)
    → after ≡ (before || not (x && y))
chained before between after x y h k = k ∙ ap (λ b. b || not y) h ∙ or_or_not before x y

-- A writer that returns at once where it failed before.
pub guarded :
    (C E : SgbCtx) (good : Bool) → Tells C E good → Tells C (if has_failed C then C else E) good
guarded C E good h = elim (Bool-cases (has_failed C)) [
  | inl e ↦ rw e (rw e refl)
  | inr e ↦ rw e (h ∙ ap (λ b. b || not good) e)
]

same_twice : (b : Bool) → (b && b) ≡ b
same_twice true = refl
same_twice false = refl

two_tests :
    (b c : Bool)
    → not
        (elim (if b then (if c then none else some not_in_required) else some not_every_property) [
          | none ↦ false
          | some f ↦ true
        ])
      ≡ (b && c)
two_tests true true = refl
two_tests true false = refl
two_tests false c = refl

kids_agree : (ks : Kids) → kids_count ks ≡ length (strings_of ks)
kids_agree no_kids = refl
kids_agree (kid (j_str s) ks) = ap suc (kids_agree ks)
kids_agree (kid (j_obj fs) ks) = ap suc (kids_agree ks)
kids_agree (kid (j_arr xs) ks) = ap suc (kids_agree ks)
kids_agree (kid (j_num d) ks) = ap suc (kids_agree ks)
kids_agree (kid (j_bool b) ks) = ap suc (kids_agree ks)
kids_agree (kid j_null ks) = ap suc (kids_agree ks)

fields_agree : (props : Fields) → fields_count props ≡ length (names_of props)
fields_agree no_fields = refl
fields_agree (field k v fs) = ap suc (fields_agree fs)

name_agrees : (ks : Kids) (name : List ℕ) → lists_name ks name ≡ is_in name (strings_of ks)
name_agrees no_kids name = refl
name_agrees (kid (j_str s) ks) name = ap (λ b. same_str s name || b) (name_agrees ks name)
name_agrees (kid (j_obj fs) ks) name = name_agrees ks name
name_agrees (kid (j_arr xs) ks) name = name_agrees ks name
name_agrees (kid (j_num d) ks) name = name_agrees ks name
name_agrees (kid (j_bool b) ks) name = name_agrees ks name
name_agrees (kid j_null ks) name = name_agrees ks name

names_agree :
    (props : Fields) (req : Kids) → all_listed props req ≡ all_in (names_of props) (strings_of req)
names_agree no_fields req = refl
names_agree (field k v fs) req = rw (name_agrees req k, names_agree fs req) refl

-- The guard on `minItems` fails for the values that are not supported.
min_items_agree : (mi : Option Jval) → min_items_ok mi ≡ not (min_items_more mi)
min_items_agree (some (j_num d)) = ground arith
min_items_agree none = refl
min_items_agree (some (j_str s)) = refl
min_items_agree (some (j_obj fs)) = refl
min_items_agree (some (j_arr ks)) = refl
min_items_agree (some (j_bool b)) = refl
min_items_agree (some j_null) = refl

required_agrees :
    (req : Option Jval) (props : Fields)
    → not (elim (required_fault req props) [ none ↦ false | some f ↦ true ]) ≡ required_ok req props
required_agrees none props = refl
required_agrees (some (j_arr req)) props =
    two_tests (kids_count req == fields_count props) (all_listed props req)
    ∙ rw (kids_agree req, fields_agree props, names_agree props req) refl
required_agrees (some (j_obj fs)) props = refl
required_agrees (some (j_str s)) props = refl
required_agrees (some (j_num d)) props = refl
required_agrees (some (j_bool b)) props = refl
required_agrees (some j_null) props = refl

module _ (number_lit : ℕ → List ℕ) where
  pub sgb_const-Tells :
      (C : SgbCtx) (v : Jval) (what : Fault) → Tells C (sgb_const number_lit C v what) (is_const v)
  sgb_const-Tells C (j_str s) what = written C
  sgb_const-Tells C (j_num d) what = written C
  sgb_const-Tells C (j_bool true) what = written C
  sgb_const-Tells C (j_bool false) what = written C
  sgb_const-Tells C j_null what = written C
  sgb_const-Tells C (j_arr ks) what = or_true (has_failed C)
  sgb_const-Tells C (j_obj fs) what = or_true (has_failed C)

  enum_more-Tells : (ks : Kids) (C : SgbCtx) → Tells C (enum_more number_lit C ks) (all_const ks)
  enum_more-Tells no_kids C = written C
  enum_more-Tells (kid v ks) C = guarded C _ _ (
      chained (has_failed C) _ _ (is_const v) (all_const ks)
        (sgb_const-Tells (sgb_put C bar) v enum_member_type) (enum_more-Tells ks _))

  pub sgb_enum-Tells : (C : SgbCtx) (e : Jval) → Tells C (sgb_enum number_lit C e) (enum_ok e)
  sgb_enum-Tells C (j_arr (kid v ks)) =
      chained (has_failed C) _ _ (is_const v) (all_const ks)
        (sgb_const-Tells (sgb_put C open_group) v enum_member_type) (enum_more-Tells ks _)
  sgb_enum-Tells C (j_arr no_kids) = or_true (has_failed C)
  sgb_enum-Tells C (j_obj fs) = or_true (has_failed C)
  sgb_enum-Tells C (j_str s) = or_true (has_failed C)
  sgb_enum-Tells C (j_num d) = or_true (has_failed C)
  sgb_enum-Tells C (j_bool b) = or_true (has_failed C)
  sgb_enum-Tells C j_null = or_true (has_failed C)

  module _ (value : SgbCtx → Jval → SgbCtx) (ok : Jval → Bool)
      (tells : (C : SgbCtx) (v : Jval) → Tells C (value C v) (ok v)) where
    members_more-Tells :
        (fs : Fields) (C : SgbCtx) → Tells C (members_more number_lit value C fs) (all_ok ok fs)
    members_more-Tells no_fields C = written C
    members_more-Tells (field k v fs) C = guarded C _ _ (
        chained (has_failed C) _ _ (ok v) (all_ok ok fs)
          (tells (sgb_put (sgb_put (sgb_put C next_member) (string_lit (c_str k))) colon) v)
          (members_more-Tells fs _))

    all_members :
        (C : SgbCtx) (k : List ℕ) (v : Jval) (fs : Fields) (fault : Option Fault)
        → Tells C
            (put_members number_lit value C (field k v fs) fault)
            (not (elim fault [ none ↦ false | some f ↦ true ]) && (ok v && all_ok ok fs))
    all_members C k v fs (some what) = or_true (has_failed C)
    all_members C k v fs none =
        chained (has_failed C) _ _ (ok v) (all_ok ok fs)
          (tells (sgb_put (sgb_put (sgb_put C open_object) (string_lit (c_str k))) colon) v)
          (members_more-Tells fs _)

    pub object-Tells :
        (C : SgbCtx) (props req : Option Jval)
        → Tells C (sgb_object number_lit value C props req) (object_ok ok props req)
    object-Tells C none req = or_true (has_failed C)
    object-Tells C (some (j_obj no_fields)) req = written C
    object-Tells C (some (j_obj (field k v fs))) req =
        all_members C k v fs (required_fault req (field k v fs))
        ∙ ap (λ b. has_failed C || not (b && (ok v && all_ok ok fs)))
            (required_agrees req (field k v fs))
    object-Tells C (some (j_arr ks)) req = or_true (has_failed C)
    object-Tells C (some (j_str s)) req = or_true (has_failed C)
    object-Tells C (some (j_num d)) req = or_true (has_failed C)
    object-Tells C (some (j_bool b)) req = or_true (has_failed C)
    object-Tells C (some j_null) req = or_true (has_failed C)

    items-Tells :
        (C : SgbCtx) (one : Bool) (items : Jval)
        → Tells C (put_items number_lit value C one items) (ok items)
    items-Tells C true items =
        chained (has_failed C) _ _ (ok items) (ok items) (tells (sgb_put C open_array) items)
          (tells _ items)
        ∙ ap (λ b. has_failed C || not b) (same_twice (ok items))
    items-Tells C false items =
        chained (has_failed C) _ _ (ok items) (ok items) (tells (sgb_put C open_optional) items)
          (tells _ items)
        ∙ ap (λ b. has_failed C || not b) (same_twice (ok items))

    pub array-Tells :
        (C : SgbCtx) (items mi : Option Jval)
        → Tells C (sgb_array number_lit value C items mi) (array_ok ok items mi)
    array-Tells C none mi = or_true (has_failed C)
    array-Tells C (some items) mi = elim (Bool-cases (min_items_more mi)) [
      | inl e ↦ rw (min_items_agree mi, e) (or_true (has_failed C))
      | inr e ↦ rw (min_items_agree mi, e) (items-Tells C (min_items_1 mi) items)
    ]
