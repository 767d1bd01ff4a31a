-- ===== src/Permissions.antt =====
-- include/permissions.hpp and bitmask.hpp: the permissions, of int8_t, and the operators of a bit mask.
-- A value is what stands in the int8_t, since the operators leave the enumerators.
use datapath.Base.{ℕ, bit_and, bit_or}

pub data Permission : Type 0 where
  nobody user group world reserved : Permission

abbrev pub underlying : Permission → ℕ
underlying nobody = 0
underlying user = 1
underlying group = 2
underlying world = 3
underlying reserved = 4

-- `operator|` and `operator&`.
abbrev pub mask_or : ℕ → ℕ → ℕ
mask_or a b = bit_or a b

abbrev pub mask_and : ℕ → ℕ → ℕ
mask_and a b = bit_and a b
