-- ===== src/Shell/Version.antt =====
-- Versions and their constraints (crates/psroot-shell-resolver/src/version.rs).
use Prim.Native.Nat.{compare, Ordering}
use psroot.Prelude.{
  ℕ, ◌+◌, ◌%◌, ◌^◌, Bool, true, false, not, ◌||◌, Option, none, some, List, [], ◌∷◌, ◌==◌, ltb,
  if◌then◌else◌, length,
}
use psroot.Text.{Text, codes, strip_prefix, trim}
use psroot.Text.Split.{split}
use psroot.Text.Decimal.{read_number}

pub data Op : Type 0 where
  eq_op ge_op gt_op le_op lt_op tilde : Op

pub record VersionReq : Type 0 where
  pub raw : Text
  pub op : Op
  pub target : List ℕ

-- The parts that are numbers of 32 bits; the others are passed over.
abbrev pub numbers : List Text → List ℕ
numbers [] = []
numbers (p ∷ ps) = elim (read_number (2 ^ 32) p) [ some n ↦ n ∷ numbers ps | none ↦ numbers ps ]

unfoldable pub parse_version : Text → List ℕ
parse_version s = numbers (split b'.' (trim s))

-- A missing part counts as zero.
abbrev pub first : List ℕ → ℕ
first [] = 0
first (x ∷ xs) = x

abbrev pub or_next : Ordering → Ordering → Ordering
or_next Ordering.eq o = o
or_next Ordering.lt o = Ordering.lt
or_next Ordering.gt o = Ordering.gt

unfoldable pub cmp_versions : List ℕ → List ℕ → Ordering
cmp_versions [] [] = Ordering.eq
cmp_versions [] (b ∷ bs) = or_next (compare 0 b) (cmp_versions [] bs)
cmp_versions (a ∷ as') [] = or_next (compare a 0) (cmp_versions as' [])
cmp_versions (a ∷ as') (b ∷ bs) = or_next (compare a b) (cmp_versions as' bs)

abbrev pub is_lt : Ordering → Bool
is_lt Ordering.lt = true
is_lt _ = false

abbrev pub is_eq : Ordering → Bool
is_eq Ordering.eq = true
is_eq _ = false

abbrev pub is_gt : Ordering → Bool
is_gt Ordering.gt = true
is_gt _ = false

-- The operator in front and what follows it.
unfoldable pub split_op : Text → Op × Text
split_op s = elim (strip_prefix (codes ">=") s) [
  | some r ↦ (Op.ge_op, r)
  | none ↦ elim (strip_prefix (codes "<=") s) [
    | some r ↦ (Op.le_op, r)
    | none ↦ elim (strip_prefix (codes ">") s) [
      | some r ↦ (Op.gt_op, r)
      | none ↦ elim (strip_prefix (codes "<") s) [
        | some r ↦ (Op.lt_op, r)
        | none ↦ elim (strip_prefix (codes "~") s) [
          | some r ↦ (Op.tilde, r)
          | none ↦ elim (strip_prefix (codes "=") s) [
            | some r ↦ (Op.eq_op, r)
            | none ↦ (Op.eq_op, s)
          ]
        ]
      ]
    ]
  ]
]

abbrev pub req_of : Text → Op → List ℕ → Option VersionReq
req_of s op [] = none
req_of s op (n ∷ ns) = some (record { raw = s; op = op; target = n ∷ ns })

unfoldable pub parse : Text → Option VersionReq
unfolding split_op parse_version
parse s = let s' = trim s in let (op, rest) = split_op s' in req_of s' op (parse_version rest)

-- `v[..t.len()] == t[..]`, if `v` is long enough.
abbrev pub begins_with : List ℕ → List ℕ → Bool
begins_with v [] = true
begins_with [] (t ∷ ts) = false
begins_with (x ∷ v) (t ∷ ts) = if x == t then begins_with v ts else false

-- The first version that is out of the band; the addition wraps, as it does where overflow is not
-- checked.
abbrev pub below_upper : List ℕ → List ℕ → Bool
below_upper v [] = true
below_upper v (x ∷ []) = is_lt (cmp_versions v (((x + 1) % 2 ^ 32) ∷ []))
below_upper v (x ∷ y ∷ ts) = is_lt (cmp_versions v (x ∷ ((y + 1) % 2 ^ 32) ∷ []))

unfoldable pub matches_parts : Op → List ℕ → List ℕ → Bool
unfolding cmp_versions
matches_parts Op.eq_op target v = is_eq (cmp_versions v target) || begins_with v target
matches_parts Op.ge_op target v = not (is_lt (cmp_versions v target))
matches_parts Op.gt_op target v = is_gt (cmp_versions v target)
matches_parts Op.le_op target v = not (is_gt (cmp_versions v target))
matches_parts Op.lt_op target v = is_lt (cmp_versions v target)
matches_parts Op.tilde target v =
    if ltb (length v) (length target)
    then false
    else if is_lt (cmp_versions v target)
    then false
    else below_upper v target

unfoldable pub matches : VersionReq → Text → Bool
unfolding matches_parts parse_version
matches req version = matches_parts req.op req.target (parse_version version)
