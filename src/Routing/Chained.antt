-- ===== src/Routing/Chained.antt =====
-- The header of protocol.c in front of the buffers of a packet.
use zephyr_io.Prelude.{
  ℕ, ◌≡◌, ◌≢◌, ◌∙◌, refl, ap, sym, Option, none, some, List, [], ◌∷◌, ◌++◌, false, ◌==◌, arith,
}
use mathlib.Core.Path.{subst}
use zephyr_io.World.{Ptr, World}
use zephyr_io.Kernel.{no_wait, Kernel, Program}
use zephyr_io.Packet.{NetBuf, weave_packet_send}
use zephyr_io.Routing.Protocol.{BufData, chain_and_send}

-- net_buf_add appends to the data of one buffer, net_buf_ref leaves the buffers alone, and
-- net_buf_frag_add links a chain behind a buffer that has none.
pub record Chains {K : Type 0} (nb : NetBuf K) (bd : BufData K) : Type 0 where
  pub added : (b : Ptr) (bs : List ℕ) (s : K) → bd.bytes b (bd.add b bs s) ≡ bd.bytes b s ++ bs
  pub add_others :
      (b c : Ptr) (bs : List ℕ) (s : K) → c ≢ b → bd.bytes c (bd.add b bs s) ≡ bd.bytes c s
  pub add_frags : (b c : Ptr) (bs : List ℕ) (s : K) → bd.frags c (bd.add b bs s) ≡ bd.frags c s
  pub ref_bytes : (b c : Ptr) (s : K) → bd.bytes c (nb.net_buf_ref b s) ≡ bd.bytes c s
  pub ref_frags : (b c : Ptr) (s : K) → bd.frags c (nb.net_buf_ref b s) ≡ bd.frags c s
  pub linked : (h b : Ptr) (s : K) → bd.frags h s ≡ none → bd.frags h (bd.frag_add h b s) ≡ some b
  pub link_others :
      (h b c : Ptr) (s : K)
      → bd.frags h s ≡ none
      → c ≢ h
      → bd.frags c (bd.frag_add h b s) ≡ bd.frags c s
  pub link_bytes : (h b c : Ptr) (s : K) → bd.bytes c (bd.frag_add h b s) ≡ bd.bytes c s

module _ {K : Type 0} (bd : BufData K) where
  -- The chain from here on consists of these buffers.
  abbrev pub Linked : K → Option Ptr → List Ptr → Type 0
  Linked s o [] = o ≡ none
  Linked s o (b ∷ bufs) = (o ≡ some b) × Linked s (bd.frags b s) bufs

  -- The data of the buffers in their order.
  abbrev pub chain_bytes : K → List Ptr → List ℕ
  chain_bytes s [] = []
  chain_bytes s (b ∷ bufs) = bd.bytes b s ++ chain_bytes s bufs

abbrev pub NoneIs : Ptr → List Ptr → Type 0
NoneIs h [] = Unit
NoneIs h (b ∷ bufs) = (b ≢ h) × NoneIs h bufs

apart_test : (a b : Ptr) → a ≢ b → (a == b) ≡ false
apart_test a b ne = ground arith

module _ {K : Type 0} {nb : NetBuf K} {bd : BufData K} (laws : Chains nb bd) (h : Ptr) (bs : List ℕ)
    (b : Ptr) (s : K) (alone : bd.frags h s ≡ none) where
  -- The state in which the header's buffer is sent: its bytes are added, the packet has a reference
  -- more and hangs behind it.
  abbrev pub chained : K
  chained = bd.frag_add h b (nb.net_buf_ref b (bd.add h bs s))

  abbrev before : K
  before = nb.net_buf_ref b (bd.add h bs s)

  before-frags : (c : Ptr) → bd.frags c before ≡ bd.frags c s
  before-frags c = laws.ref_frags b c (bd.add h bs s) ∙ laws.add_frags h c bs s

  chained-frags : (c : Ptr) → c ≢ h → bd.frags c chained ≡ bd.frags c s
  chained-frags c ne = laws.link_others h b c before (before-frags h ∙ alone) ne ∙ before-frags c

  chained-bytes : (c : Ptr) → c ≢ h → bd.bytes c chained ≡ bd.bytes c s
  chained-bytes c ne =
      laws.link_bytes h b c before
      ∙ laws.ref_bytes b c (bd.add h bs s)
      ∙ laws.add_others h c bs s ne

  chained-Linked :
      (o : Option Ptr) (bufs : List Ptr)
      → NoneIs h bufs
      → Linked bd s o bufs
      → Linked bd chained o bufs
  chained-Linked o [] ne e = e
  chained-Linked o (c ∷ bufs) (ne, rest) (e, l) = (
    e,
    subst (λ q. Linked bd chained q bufs) (sym (chained-frags c ne))
        (chained-Linked (bd.frags c s) bufs rest l),
  )

  chained-same :
      (bufs : List Ptr) → NoneIs h bufs → chain_bytes bd chained bufs ≡ chain_bytes bd s bufs
  chained-same [] ne = refl
  chained-same (c ∷ bufs) (ne, rest) =
      ap (λ xs. xs ++ chain_bytes bd chained bufs) (chained-bytes c ne)
      ∙ ap (λ xs. bd.bytes c s ++ xs) (chained-same bufs rest)

  -- The chain that is sent, and its bytes.
  pub header-Linked :
      (rest : List Ptr)
      → NoneIs h (b ∷ rest)
      → Linked bd s (some b) (b ∷ rest)
      → Linked bd chained (some h) (h ∷ b ∷ rest)
  header-Linked rest ne l =
      let behind = (chained-Linked (some b) (b ∷ rest) ne l).1 in
      (refl, (laws.linked h b before (before-frags h ∙ alone), behind))

  pub header-bytes :
      (rest : List Ptr)
      → NoneIs h (b ∷ rest)
      → bd.bytes h s ≡ []
      → chain_bytes bd chained (h ∷ b ∷ rest) ≡ bs ++ chain_bytes bd s (b ∷ rest)
  header-bytes rest ne empty =
      ap (λ xs. xs ++ chain_bytes bd chained (b ∷ rest))
        (laws.link_bytes h b h before
          ∙ laws.ref_bytes b h (bd.add h bs s)
          ∙ laws.added h bs s
          ∙ ap (λ xs. xs ++ bs) empty)
      ∙ ap (λ xs. bs ++ xs) (chained-same (b ∷ rest) ne)

  pub chain_and_send-eq :
      (k : Kernel K) (p : Program K) (source : Ptr) (rest : List Ptr) (w : World K)
      → NoneIs h (b ∷ rest)
      → Linked bd s (some b) (b ∷ rest)
      → chain_and_send k nb bd p source h b (record w { kernel = bd.add h bs s })
        ≡ (weave_packet_send k nb p
            (some source)
            (some h)
            no_wait
            (record w { kernel = chained })).1
  unfolding chain_and_send
  chain_and_send-eq k p source [] w ne l =
      rw (apart_test b h ne.0) (rw (before-frags b ∙ l.1, chain_and_send) refl)
  chain_and_send-eq k p source (c ∷ rest) w ne l =
      rw (apart_test b h ne.0)
        (rw (before-frags b ∙ l.1.0, chain_and_send, apart_test c h ne.1.0) refl)
