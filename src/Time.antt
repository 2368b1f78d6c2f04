-- ===== src/Time.antt =====
-- Python's `datetime` and `timedelta`, in microseconds, for zones with a constant offset.
use axit_project.Prelude.{
  ℕ, ◌+◌, ◌*◌, ◌-◌, Bool, true, false, ◌&&◌, Option, none, some, leb, if◌then◌else◌, ℤ, pos,
  pos_part, neg_part, ◌-ℤ◌, ltb_ℤ, Result, ok, err,
}
use axit_project.Errors.{Error, overflow_error}

-- `local` counts from 0001-01-01T00:00:00; no offset means `tzinfo` or `utcoffset()` is `None`.
pub record DateTime : Type 0 where
  pub local : ℕ
  pub utc_offset : Option ℤ

-- `datetime.max`
abbrev pub max_local : ℕ
max_local = 3652059 * 86400000000 - 1

abbrev pub is_aware : DateTime → Bool
is_aware t = elim t.utc_offset [ none ↦ false | some offset ↦ true ]

unfoldable pub instant : DateTime → ℤ
instant t = pos t.local -ℤ elim t.utc_offset [ none ↦ pos 0 | some offset ↦ offset ]

-- `a > b`
unfoldable pub later_than : DateTime → DateTime → Bool
unfolding instant
later_than a b = ltb_ℤ (instant b) (instant a)

-- `t + delta`
unfoldable pub add_delta : DateTime → ℤ → Result Error DateTime
add_delta t delta =
    let sum = t.local + pos_part delta in
    if leb (neg_part delta) sum && leb (sum - neg_part delta) max_local
    then ok (record t { local = sum - neg_part delta })
    else err overflow_error
