-- ===== src/Lossless/Conn/Opening.antt =====
-- The buffers of a connection that toxcore/Lossless_UDP.c has just opened.
use project_tox_core.Prelude.{
  ℕ, ◌^◌, ◌<◌, ◌≡◌, refl, ap, sym, ◌∙◌, subst, List, arith, length, get_or, replicate,
  length-replicate, get_or-replicate,
}
use project_tox_core.Network.{IpPort}
use project_tox_core.Lossless.{Slot, zero_slot, Connection, zero_connection, max_queue_num}
use project_tox_core.Lossless.Table.{Env, incoming, outgoing}
use project_tox_core.Lossless.Handle.{numbered, shake}
use project_tox_core.Lossless.Conn.Delivery.{Inv}
use project_tox_core.Lossless.Conn.Near.{Near}
use project_tox_core.Lossless.Conn.Send.{IsSendable}

-- Nothing was received and all numbers agree.
pub record IsFresh (c : Connection) (start : ℕ) : Type 0 where
  pub slots : c.recvbuffer ≡ replicate max_queue_num zero_slot
  pub recv : c.recv_packetnum ≡ start
  pub read : c.successful_read ≡ start
  pub osent : c.osent_packetnum ≡ start
  pub word : start < 2 ^ 32

free_slot :
    (c : Connection) (start n : ℕ) → IsFresh c start → (get_or c.recvbuffer n zero_slot).size ≡ 0
free_slot c start n f =
    ap (λ (s : Slot). s.size)
      (ap (λ buf. get_or buf n zero_slot) f.slots ∙ get_or-replicate n max_queue_num zero_slot)

pub IsFresh-Inv :
    (stream : ℕ → List ℕ) (c : Connection) (start : ℕ) → IsFresh c start → Inv stream c
IsFresh-Inv stream c start f = record {
  tracks = record {
    slots = ap length f.slots ∙ length-replicate max_queue_num zero_slot;
    recv_word = ground (arith, f.recv, f.word);
    read_word = ground (arith, f.read, f.word);
    bounded = ground (arith, f.recv, f.read);
    filled = λ k h. absurd (ground (arith, f.recv, f.read));
    beyond = free_slot c start _ f;
    faithful = λ k h full. absurd (full (free_slot c start _ f));
  };
  osent_word = ground (arith, f.osent, f.word);
}

-- Nothing was sent yet that has not come.
pub IsFresh-Near : (c : Connection) (start : ℕ) → IsFresh c start → Near c
IsFresh-Near c start f = record {
  ahead = ground (arith, f.recv, f.osent, f.word);
  within = λ k h full. absurd (full (free_slot c start _ f));
}

abbrev met : Connection → ℕ → ℕ → Connection
met c handshake_id1 handshake_id2 = record c {
  status = 2;
  orecv_packetnum = handshake_id2;
  osent_packetnum = handshake_id1;
  recv_packetnum = handshake_id1;
  successful_read = handshake_id1;
}

-- A connection that a SYNC packet opens, and one whose handshake is answered with its own number,
-- begins with the invariants of both of its buffers, and `Near` the other side.
pub opened-Inv :
    (stream : ℕ → List ℕ) (env : Env) (ip_port : IpPort) (own theirs : ℕ)
    → own < 2 ^ 32
    → theirs < 2 ^ 32
    → let accepted = numbered (incoming env ip_port) own theirs in
      let answered = shake (outgoing env ip_port own) theirs own in
      Inv stream accepted
      × IsSendable accepted
      × Inv stream answered
      × IsSendable answered
      × Near accepted
      × Near answered
unfolding zero_connection
opened-Inv stream env ip_port own theirs ho ht = (
  IsFresh-Inv stream (numbered (incoming env ip_port) own theirs) theirs
      (record { slots = refl; recv = refl; read = refl; osent = refl; word = ht }),
  record { slots = refl; top_word = ho; acked_word = ho; bounded = omega arith },
  subst (Inv stream) (sym same) (
      IsFresh-Inv stream (met (outgoing env ip_port own) theirs own) theirs
        (record { slots = refl; recv = refl; read = refl; osent = refl; word = ht })),
  subst IsSendable (sym same)
      (record { slots = refl; top_word = ho; acked_word = ho; bounded = omega arith }),
  IsFresh-Near (numbered (incoming env ip_port) own theirs) theirs
      (record { slots = refl; recv = refl; read = refl; osent = refl; word = ht }),
  subst Near (sym same) (
      IsFresh-Near (met (outgoing env ip_port own) theirs own) theirs
        (record { slots = refl; recv = refl; read = refl; osent = refl; word = ht })),
)
  where
    same : shake (outgoing env ip_port own) theirs own ≡ met (outgoing env ip_port own) theirs own
    same = ground arith
