-- ===== src/Tests/Boxes.antt =====
-- A box that keeps the documented behaviour, and two key pairs for it.
use project_tox_core.Prelude.{
  ℕ, refl, ap, ◌∙◌, sym, arith, some, [], ◌++◌, replicate, drop, length-append, length-drop,
  take_append_drop,
}
use project_tox_core.NetCrypto.{Box, IsBox}
use project_tox_core.NetCrypto.Request.{KeyPair}
use project_tox_core.NetCrypto.RoundTrip.Packets.{IsAgreed}

-- A box that only adds a tag of 16 ones.
abbrev pub open_box : Box
open_box = record {
  beforenm = λ public secret. [];
  afternm = λ m n k. replicate 16 0 ++ (replicate 16 1 ++ drop 32 m);
  open_afternm = λ c n k. some (replicate 32 0 ++ drop 32 c);
  keypair = λ n. (replicate 32 n, replicate 32 n);
}

pub open_box-IsBox : IsBox open_box
open_box-IsBox = record {
  same_length = λ m n k h. omega (
    arith,
    length-append {A = ℕ} (replicate 16 0) (replicate 16 1 ++ drop 32 m),
    length-append {A = ℕ} (replicate 16 1) (drop 32 m),
    length-drop 32 m,
  );
  padded = λ m n k h z. refl;
  opens = λ m n k h z. ap (λ t. some (t ++ drop 32 m)) (sym z) ∙ ap some (take_append_drop 32 m);
}

abbrev pub alice_keys : KeyPair
alice_keys = (replicate 32 1, replicate 32 2)

abbrev pub bob_keys : KeyPair
bob_keys = (replicate 32 3, replicate 32 4)

pub agreed : IsAgreed open_box alice_keys bob_keys
agreed = record { same_key = refl; length_a = refl; length_b = refl }

pub both_ways : IsAgreed open_box bob_keys alice_keys
both_ways = record { same_key = refl; length_a = refl; length_b = refl }
