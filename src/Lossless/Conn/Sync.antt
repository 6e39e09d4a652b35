-- ===== src/Lossless/Conn/Sync.antt =====
-- The three ways that `handle_SYNC3` of toxcore/Lossless_UDP.c ends.
use project_tox_core.Prelude.{
  ℕ, arith, ◌≡◌, true, false, inl, inr, Option, none, some, List, length, Bool-cases, Option-cases,
}
use project_tox_core.Lossless.{Connection}
use project_tox_core.Lossless.Conn.{copy_loop, sync3_is_valid, accept_sync3, handle_sync3}

module _ (stack_words : List ℕ) (now : ℕ) (c : Connection) (counter recv_num sent_num : ℕ)
    (requests : List ℕ) where
  abbrev pub copied : Option (List ℕ)
  copied = copy_loop stack_words requests 0 (length requests) c.req_packets

  pub handle_sync3-refused :
      sync3_is_valid c counter recv_num sent_num ≡ false
      → handle_sync3 stack_words now c counter recv_num sent_num requests ≡ some (c, 1)
  unfolding handle_sync3
  handle_sync3-refused bad = rw bad

  pub handle_sync3-fault :
      sync3_is_valid c counter recv_num sent_num ≡ true
      → copied ≡ none
      → handle_sync3 stack_words now c counter recv_num sent_num requests ≡ none
  unfolding handle_sync3
  handle_sync3-fault ok e = rw (ok, e)

  pub handle_sync3-accepted :
      (words : List ℕ)
      → sync3_is_valid c counter recv_num sent_num ≡ true
      → copied ≡ some words
      → handle_sync3 stack_words now c counter recv_num sent_num requests
        ≡ some (accept_sync3 now c counter recv_num sent_num (length requests) words, 0)
  unfolding handle_sync3
  handle_sync3-accepted words ok e = rw (ok, e)

  pub handle_sync3-cases {ℓ} :
      (P : Option (Connection × ℕ) → Type ℓ)
      → P (some (c, 1))
      → P none
      → ((words : List ℕ)
          → P (some (accept_sync3 now c counter recv_num sent_num (length requests) words, 0)))
      → P (handle_sync3 stack_words now c counter recv_num sent_num requests)
  handle_sync3-cases P refused fault accepted =
      elim (Bool-cases (sync3_is_valid c counter recv_num sent_num)) [
        | inr bad ↦ rw (handle_sync3-refused bad) refused
        | inl ok ↦ elim (Option-cases copied) [
          | inl e ↦ rw (handle_sync3-fault ok e) fault
          | inr (words, e) ↦ rw (handle_sync3-accepted words ok e) (accepted words)
        ]
      ]

-- A SYNC packet that is accepted changes the connection as `accept_sync3` says.
pub handle_sync3-inversion :
    (stack_words : List ℕ) (now : ℕ) (c c' : Connection) (counter recv_num sent_num : ℕ)
    (requests : List ℕ)
    → handle_sync3 stack_words now c counter recv_num sent_num requests ≡ some (c', 0)
    → (words : List ℕ) × (c' ≡ accept_sync3 now c counter recv_num sent_num (length requests) words)
handle_sync3-inversion stack_words now c c' counter recv_num sent_num requests =
    handle_sync3-cases stack_words now c counter recv_num sent_num requests
      (λ r.
        r ≡ some (c', 0)
        → (words : List ℕ) × (c'
            ≡ accept_sync3 now c counter recv_num sent_num (length requests) words))
      (λ e. absurd (ground arith)) (λ e. absurd (cc)) (λ words e. (words, cc))
