-- ===== src/Udp/Tx/Write.antt =====
-- udp_write of udp.c as a whole.
use swnet_win.Base.{
  ℕ, suc, ◌+◌, ◌≤◌, ◌<◌, ltb, ℤ, pos, negsuc, minus_one, true, false, is_neg, is_nonpos, pos_part,
  not, ◌==◌, ◌||◌, Bool, Bool-cases, ◌≡◌, refl, sym, ap, ap₂, ◌∙◌, ◌⊎◌, inl, inr, Option,
  Option-cases, none, some, List, ◌∷◌, ◌++◌, append-nil, length, length-take, take, take-take_le,
  drop_all, arith,
}
use swnet_win.Types.{Block}
use swnet_win.World.{
  Env, World, Event, block_made, referenced, dereferenced, ◌>>=◌, ◌>>◌, when◌then◌else◌, on_option,
}
use swnet_win.Tcp.Recv.Copy.{put}
use swnet_win.Ledger.{taken, given, blocks_made, blocks_freed, KeepsRefs, KeepsBlocks}
use swnet_win.Udp.Tx.{fill_buffer, write_buffer, udp_write, udp_tx_single_packet}
use swnet_win.Udp.Tx.Refusal.{refusals, tx_loop-refusals}
use swnet_win.Udp.Tx.Wire.{
  wire, TakesAtMost, Settles, Sent, udp_tx_single_packet-Sent, tx_loop-count,
}

-- malloc gives a block of the size that it is asked for.
abbrev pub Sized : Env → Type 0
Sized env = (t : List Event) (n : ℕ) (b : Block) → env.malloc t n ≡ some b → length b.bytes ≡ n

-- What sendto took in a call, by its result: all the bytes with 0; or fewer of them, those at the
-- front, with -1, after one call of sendto that took nothing and was not interrupted; or nothing, with
-- -ENOMEM, where malloc gave no `block`.
abbrev pub Outcome : Env → ℕ → List ℕ → Option Block → World → Option ℤ × World → Type 0
Outcome env cb origin block w r =
    ((r.0 ≡ some (pos 0)) × (wire r.1.history ≡ wire w.history ++ take cb origin))
    ⊎ (((k : ℕ) × (k < cb)
          × (r.0 ≡ some minus_one)
          × (wire r.1.history ≡ wire w.history ++ take k origin)
          × (refusals env r.1.history ≡ suc (refusals env w.history)))
        ⊎ ((block ≡ none) × (r.0 ≡ some (negsuc env.enomem)) × (wire r.1.history ≡ wire w.history)))

-- A call of udp_write gave back what it took.
pub record Written (env : Env) (h : ℤ) (cb : ℕ) (origin : List ℕ) (block : Option Block) (w : World)
    (r : Option ℤ × World) : Type 0 where
  pub refs : KeepsRefs h w r.1
  pub blocks : KeepsBlocks w r.1
  pub outcome : Outcome env cb origin block w r

-- A message that udp_write does not accept: no address or port, no bytes, too many, or no link.
abbrev pub IsRefused : Env → ℤ → ℤ → Bool → ℕ → Type 0
IsRefused env lnk size has_address r_port =
    (has_address ≡ false)
    ⊎ ((r_port ≡ 0)
        ⊎ ((is_nonpos size ≡ true) ⊎ ((is_neg lnk ≡ true) ⊎ (env.max_udp_unit < pos_part size))))

-- How a call of udp_write ends: it is refused, the link is gone, or it is carried out.
abbrev pub Ends : Env → ℤ → ℤ → ℕ → List ℕ → ℤ → Bool → ℕ → World → Option ℤ × World → Type 0
Ends env h lnk cb origin size has_address r_port w r =
    (IsRefused env lnk size has_address r_port × (r ≡ (some (negsuc env.einval), w)))
    ⊎ ((¬ IsRefused env lnk size has_address r_port
          × (env.refer w.history lnk ≡ false)
          × (r ≡ (some (negsuc env.enoent), w)))
        ⊎ (¬ IsRefused env lnk size has_address r_port
            × (env.refer w.history lnk ≡ true)
            × Written env h cb origin (env.malloc (referenced lnk ∷ w.history) cb) w r))

module _ (env : Env) (limit : ℕ) (at_most : TakesAtMost env) (settles : Settles env limit)
    (sized : Sized env) (fuel : ℕ) (h : ℤ) (origin : List ℕ) (cb : ℕ) (room : cb ≤ length origin)
    (enough : cb + limit < fuel) where
  copied : (b : Block) → length b.bytes ≡ cb → put b.bytes 0 (take cb origin) ≡ take cb origin
  copied b e =
      ap (λ t. take cb origin ++ t)
        (drop_all (0 + length (take cb origin)) b.bytes
          (omega (arith, e, room, length-take cb origin)))
      ∙ append-nil (take cb origin)

  -- The outcome of the loop, by the bytes that the caller gave.
  from_origin :
      (block : Option Block) (w w' : World) (r : Option ℤ × World)
      → wire w'.history ≡ wire w.history
      → (r.0 ≡ some minus_one → refusals env r.1.history ≡ suc (refusals env w.history))
      → Sent cb (take cb origin) w'.history r
      → Outcome env cb origin block w r
  from_origin block w w' r e fails s = elim s [
    | inl (ok, t) ↦ inl (ok, rw (sym e, sym (take-take_le cb cb origin (omega arith))) t)
    | inr (k, lt, ok, t) ↦ inr (
        inl (k, lt, ok, rw (sym e, sym (take-take_le k cb origin (omega (arith, lt)))) t, fails ok))
  ]

  write_buffer-Written :
      (w : World)
      → Written env h cb origin (env.malloc w.history cb) w (write_buffer fuel origin cb none env w)
  unfolding write_buffer fill_buffer udp_tx_single_packet ◌>>=◌ ◌>>◌ on_option
  write_buffer-Written w = elim (Option-cases (env.malloc w.history cb)) [
    | inl e ↦ rw e (record { refs = refl; blocks = refl; outcome = inr (inr (refl, refl, refl)) })
    | inr (b, e) ↦
        let w' : World = record w { history = block_made b.address ∷ w.history } in
        let given_bytes : List ℕ = take cb origin in
        let takes =
          tx_loop-count (taken h) (λ x t. refl) (λ x t. refl) env given_bytes cb fuel 0 w' in
        let gives =
          tx_loop-count (given h) (λ x t. refl) (λ x t. refl) env given_bytes cb fuel 0 w' in
        let makes =
          tx_loop-count (blocks_made) (λ x t. refl) (λ x t. refl) env given_bytes cb fuel 0 w' in
        let frees =
          tx_loop-count (blocks_freed) (λ x t. refl) (λ x t. refl) env given_bytes cb fuel 0 w' in
        rw (e, copied b (sized w.history cb b e))
          (record {
            refs = ap₂ (λ x y. x + y) takes (sym gives);
            blocks = omega (arith, makes, frees);
            outcome =
                from_origin (some b) w w' (udp_tx_single_packet fuel given_bytes cb env w') refl
                  (tx_loop-refusals env given_bytes cb fuel 0 w')
                  (udp_tx_single_packet-Sent env limit at_most settles given_bytes cb
                    (omega (arith, room, length-take cb origin)) fuel w' enough);
          })
  ]

  -- Between a reference taken and given back.
  referenced-Written :
      (w : World) (lnk : ℤ) (block : Option Block) (o : Option ℤ) (w' : World)
      → Written env h cb origin block (record w { history = referenced lnk ∷ w.history }) (o, w')
      → Written env h cb origin block w (o, record w' { history = dereferenced lnk ∷ w'.history })
  referenced-Written w lnk block o w' r =
      let refs = r.refs in
      record { refs = ground (arith, refs); blocks = r.blocks; outcome = r.outcome }

  refuses_lem :
      (lnk size : ℤ) (has_address : Bool) (r_port : ℕ)
      → IsRefused env lnk size has_address r_port
      → not has_address
          || (r_port == 0
              || (is_nonpos size || (is_neg lnk || ltb env.max_udp_unit (pos_part size))))
        ≡ true
  refuses_lem lnk size has_address r_port is = ground (arith, is)

  IsRefused_lem :
      (lnk size : ℤ) (has_address : Bool) (r_port : ℕ)
      → not has_address
          || (r_port == 0
              || (is_nonpos size || (is_neg lnk || ltb env.max_udp_unit (pos_part size))))
        ≡ true
      → IsRefused env lnk size has_address r_port
  IsRefused_lem lnk size has_address r_port e = ground (arith, e)

  -- udp_write with no serializer ends, in one of three ways. A message without an address or a
  -- port, with no bytes or more than fit a datagram, or for a handle that is negative, is refused
  -- with -EINVAL, and nothing at all happens. Any other message for a link that is gone gives
  -- -ENOENT, and nothing at all happens. Any other message is carried out: it gives back the
  -- references of every link as often as it takes them and frees as many blocks as it makes, and it
  -- returns 0 with sendto having taken all the bytes of the message in order; or -1 with fewer of
  -- them taken, those at the front, after exactly one call of sendto that took nothing and was not
  -- interrupted; or -ENOMEM with none taken, where malloc gave no block. sendto takes at most the
  -- bytes it is given and is no longer interrupted after `limit` calls, malloc gives blocks of the
  -- size it is asked for, the message has the size that the call says, and the fuel exceeds that
  -- size and `limit` together.
  pub udp_write-Written :
      (w : World) (lnk size : ℤ) (has_address : Bool) (r_port : ℕ)
      → pos_part size ≡ cb
      → Ends env h lnk cb origin size has_address r_port w
          (udp_write fuel lnk origin size has_address r_port none env w)
  unfolding udp_write ◌>>=◌ ◌>>◌ when◌then◌else◌
  udp_write-Written w lnk size has_address r_port e =
      let refuses =
        not has_address
        || (r_port == 0
            || (is_nonpos size || (is_neg lnk || ltb env.max_udp_unit (pos_part size)))) in
      elim (Bool-cases refuses) [
        | inl g ↦ rw g (inl (IsRefused_lem lnk size has_address r_port g, refl))
        | inr g ↦
            let accepted : ¬ IsRefused env lnk size has_address r_port =
              λ is. absurd (ground (arith, g, refuses_lem lnk size has_address r_port is)) in
            elim (Bool-cases (env.refer w.history lnk)) [
              | inr f ↦ rw (g, f) (inr (inl (accepted, refl, refl)))
              | inl f ↦
                  let w' : World = record w { history = referenced lnk ∷ w.history } in
                  rw (g, f)
                    (inr (
                      inr (
                        accepted,
                        refl,
                        rw e (referenced-Written w lnk _ _ _ (write_buffer-Written w')),
                      )))
            ]
      ]
