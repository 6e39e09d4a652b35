-- ===== src/Lossless/Conn/Send.antt =====
-- The send buffer of toxcore/Lossless_UDP.c as a queue of at most 15 packets that wait for an
-- acknowledgement.
use project_tox_core.Prelude.{
  ℕ, zero, suc, ◌%◌, ◌^◌, ◌≤◌, ◌<◌, ◌≡◌, refl, ap, ap₂, ◌∙◌, ◌≢◌, List, [], ◌∷◌, ◌++◌, arith, ◌==◌,
  ltb, leb, length, get_or, set, take, add32, sub32, get_or-set_self, get_or-set_ne, length-set,
  take-append, Bool-cases, inl, inr, ◌⊎◌,
}
use project_tox_core.Lossless.{
  Slot, zero_slot, Connection, max_data_size, max_queue_num, buffer_packet_num,
}
use project_tox_core.Lossless.Conn.{sendqueue, fill_slot, write_packet}

pub record IsSendable (c : Connection) : Type 0 where
  pub slots : length c.sendbuffer ≡ max_queue_num
  pub top_word : c.sendbuff_packetnum < 2 ^ 32
  pub acked_word : c.successful_sent < 2 ^ 32
  pub bounded : sub32 c.sendbuff_packetnum c.successful_sent ≤ buffer_packet_num

-- The bytes that a data packet with number `n` carries.
abbrev pub payload : List Slot → ℕ → List ℕ
payload buf n = let s = get_or buf (n % max_queue_num) zero_slot in take s.size s.bytes

-- The packets with the `k` numbers from `n` on.
unfoldable pub payloads : List Slot → ℕ → ℕ → List (List ℕ)
payloads buf n zero = []
payloads buf n (suc k) = payload buf n ∷ payloads buf (add32 n 1) k

-- The packets that were written and not yet acknowledged, oldest first.
unfoldable pub pending : Connection → List (List ℕ)
unfolding payloads sendqueue
pending c = payloads c.sendbuffer c.successful_sent (sendqueue c)

pub length-payloads : (buf : List Slot) (n k : ℕ) → length (payloads buf n k) ≡ k
unfolding payloads
length-payloads buf n zero = refl
length-payloads buf n (suc k) = ap suc (length-payloads buf (add32 n 1) k)

abbrev written : List Slot → ℕ → List ℕ → List Slot
written buf i data' = set buf i (fill_slot (get_or buf i zero_slot) data')

payload-written_self :
    (buf : List Slot) (n : ℕ) (data' : List ℕ)
    → length buf ≡ max_queue_num
    → payload (written buf (n % max_queue_num) data') n ≡ data'
payload-written_self buf n data' h =
    ap (λ (s : Slot). take s.size s.bytes)
      (get_or-set_self buf (n % max_queue_num) _ zero_slot (omega arith))
    ∙ take-append (length data') data' _ refl

payloads-written :
    (buf : List Slot) (data' : List ℕ) (k n top : ℕ)
    → length buf ≡ max_queue_num
    → n < 2 ^ 32
    → top ≡ add32 n k
    → k < max_queue_num
    → payloads (written buf (top % max_queue_num) data') n (suc k) ≡ payloads buf n k ++ data' ∷ []
unfolding payloads
payloads-written buf data' zero n top h w e small =
    let same : top ≡ n = omega arith in
    ap (λ p. p ∷ []) (rw same (payload-written_self buf n data' h))
payloads-written buf data' (suc k) n top h w e small =
    ap₂ ◌∷◌
      (ap (λ (s : Slot). take s.size s.bytes)
        (get_or-set_ne buf (top % max_queue_num) (n % max_queue_num) _ zero_slot (omega arith)))
      (payloads-written buf data' k (add32 n 1) top h (omega arith) (omega arith) (omega arith))

pub length-pending :
    (c : Connection) → length (pending c) ≡ sub32 c.sendbuff_packetnum c.successful_sent
unfolding pending
length-pending c = length-payloads c.sendbuffer c.successful_sent (sendqueue c)

abbrev appended : Connection → List ℕ → Connection
appended c data' = record c {
  sendbuffer = written c.sendbuffer (c.sendbuff_packetnum % max_queue_num) data';
  sendbuff_packetnum = add32 c.sendbuff_packetnum 1;
}

appended-IsSendable :
    (c : Connection) (data' : List ℕ)
    → IsSendable c
    → sub32 c.sendbuff_packetnum c.successful_sent < buffer_packet_num
    → IsSendable (appended c data')
appended-IsSendable c data' v h = record {
  slots = length-set c.sendbuffer (c.sendbuff_packetnum % max_queue_num) _ ∙ v.slots;
  top_word = omega arith;
  acked_word = v.acked_word;
  bounded = omega arith;
}

pending-appended :
    (c : Connection) (data' : List ℕ)
    → IsSendable c
    → sub32 c.sendbuff_packetnum c.successful_sent < buffer_packet_num
    → pending (appended c data') ≡ pending c ++ data' ∷ []
unfolding pending
pending-appended c data' v h =
    ap (payloads (appended c data').sendbuffer c.successful_sent) (
      let e : sub32 (add32 c.sendbuff_packetnum 1) c.successful_sent
          ≡ suc (sub32 c.sendbuff_packetnum c.successful_sent) =
        omega arith in
      e)
    ∙ payloads-written c.sendbuffer data' (sub32 c.sendbuff_packetnum c.successful_sent)
        c.successful_sent c.sendbuff_packetnum v.slots v.acked_word (omega arith) (omega arith)

abbrev pub IsRefused : Connection → List ℕ → Type 0
IsRefused c data' =
    (length data' ≡ 0) ⊎ (max_data_size < length data') ⊎ (buffer_packet_num ≤ length (pending c))

-- On a valid send buffer (`IsSendable`), which it stays, `write_packet` refuses data of no bytes
-- or more than 1024, and any data while 15 packets wait, and then changes nothing. Otherwise it
-- returns 1 and the data joins the end of the queue; no packet that waits is touched, also where
-- the packet numbers wrap at 2^32.
pub write_packet_refines :
    (c : Connection) (data' : List ℕ)
    → IsSendable c
    → let (c', ret) = write_packet c data' in
      IsSendable c'
      × ((IsRefused c data' × (ret ≡ 0) × (c' ≡ c))
          ⊎ (¬ IsRefused c data' × (ret ≡ 1) × (pending c' ≡ pending c ++ data' ∷ [])))
unfolding write_packet sendqueue
write_packet_refines c data' v = elim (Bool-cases (ltb max_data_size (length data'))) [
  | inl big ↦ rw big (v, inl (inr (inl (ground arith)), refl, refl))
  | inr fits ↦ rw fits (elim (Bool-cases (length data' == 0)) [
    | inl empty ↦ rw empty (v, inl (inl (ground arith), refl, refl))
    | inr some_bytes ↦ rw some_bytes (elim (Bool-cases (leb buffer_packet_num (sendqueue c))) [
      | inl full ↦ rw full (v, inl (inr (inr (rw (length-pending c) (ground arith))), refl, refl))
      | inr free ↦ rw free (
        appended-IsSendable c data' v (ground arith),
        inr (
          λ r. accepts r (ground arith) (ground arith) (ground arith),
          refl,
          pending-appended c data' v (ground arith),
        ),
      )
    ])
  ])
]
  where
    accepts :
        IsRefused c data'
        → length data' ≢ 0
        → length data' ≤ max_data_size
        → sub32 c.sendbuff_packetnum c.successful_sent < buffer_packet_num
        → ⊥
    accepts (inl z) a b d = a z
    accepts (inr (inl z)) a b d = omega arith
    accepts (inr (inr z)) a b d = omega (arith, length-pending c)
