-- ===== src/Groups/Limits.antt =====
-- How many bytes a read or a write by register number covers.
use zephyr_io.Prelude.{ℕ, ◌+◌, ◌-◌, ◌≡◌, ◌≤◌, ◌<◌, arith}
use zephyr_io.Groups.Access.{limited}

-- At an offset inside the group's declared range and inside the struct, the bytes covered are no
-- more than asked for and end inside both.
pub limited_within :
    (grp_size obs_size offset len : ℕ)
    → offset < grp_size
    → grp_size < 65536
    → offset ≤ obs_size
    → obs_size < 4294967296
    → let n = limited grp_size obs_size offset len in
      (n ≤ len) × (offset + n ≤ grp_size) × (offset + n ≤ obs_size)
unfolding limited
limited_within grp_size obs_size offset len h1 h2 h3 h4 = (ground arith, ground arith, ground arith)

-- At an offset of the declared range that lies behind the end of the struct, the subtraction from
-- the struct's size wraps and limits nothing: as many bytes are covered as asked for, up to the
-- end of the declared range.
pub limited_behind :
    (grp_size obs_size offset len : ℕ)
    → offset < grp_size
    → grp_size < 65536
    → obs_size < offset
    → len ≤ grp_size - offset
    → limited grp_size obs_size offset len ≡ len
unfolding limited
limited_behind grp_size obs_size offset len h1 h2 h3 h4 = ground arith
