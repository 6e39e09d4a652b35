-- ===== src/Tests/Faults.antt =====
-- Examples for the writes past an array.
use project_tox_core.Prelude.{
  ℕ, ◌+◌, ◌≤◌, ◌≡◌, ◌↔◌, refl, arith, true, none, some, List, [], ◌∷◌, length, sub32, ◌%◌, ap,
  get_or-replicate, ◌+◌,
}
use project_tox_core.Lossless.{Slot, zero_slot, Connection, zero_connection}
use project_tox_core.Lossless.Conn.{
  handle_sync3, accept_sync3, copy_loop, sync3_is_valid, missing_packets,
}
use project_tox_core.Lossless.Conn.Overrun.{
  IsEmpty, handle_sync3_overrun_iff, missing_packets_overrun,
}
use project_tox_core.Tests.Sample.{confirmed}

abbrev nine : List ℕ
nine = 1 ∷ 2 ∷ 3 ∷ 4 ∷ 5 ∷ 6 ∷ 7 ∷ 8 ∷ 9 ∷ []

handle_sync3_overrun_iff_example :
    (handle_sync3 [] 9 confirmed 1 40 70 nine ≡ none)
    ↔ ((sync3_is_valid confirmed 1 40 70 ≡ true) × (9 ≤ length nine))
handle_sync3_overrun_iff_example = handle_sync3_overrun_iff [] 9 confirmed 1 40 70 nine

confirmed-IsEmpty : IsEmpty confirmed
unfolding zero_connection
confirmed-IsEmpty = λ n. ap (λ (s : Slot). s.size) (get_or-replicate (n % 16) 16 zero_slot)

-- Two SYNC packets, the numbers of which move by 10 each.
abbrev once : Connection
once = accept_sync3 9 confirmed 1 40 80 0 confirmed.req_packets

abbrev twice : Connection
twice = accept_sync3 9 once 2 40 90 0 confirmed.req_packets

confirmed-once : handle_sync3 [] 9 confirmed 1 40 80 [] ≡ some (once, 0)
unfolding handle_sync3 copy_loop sync3_is_valid zero_connection
confirmed-once = refl

once-twice : handle_sync3 [] 9 once 2 40 90 [] ≡ some (twice, 0)
unfolding handle_sync3 copy_loop sync3_is_valid zero_connection
once-twice = refl

missing_packets_overrun_example :
    length (missing_packets twice).1 ≡ sub32 80 confirmed.osent_packetnum + sub32 90 80
unfolding zero_connection
missing_packets_overrun_example =
    missing_packets_overrun [] [] 9 9 confirmed once twice 1 40 80 2 40 90 [] [] confirmed-IsEmpty
      refl refl (omega arith) (omega arith) (omega arith) confirmed-once once-twice (omega arith)
      (omega arith)
