-- ===== src/Ra/Ias/Endian.antt =====
-- `SWAP_ENDIAN_32B` and the bytes in memory.
use mathlib.Core.List.{reverse}
use sgx_nfv.Prelude.{ℕ, ◌<◌, ◌≡◌, List, [], ◌∷◌, ◌++◌, arith}
use sgx_nfv.Ra.Ias.{swap_endian_dw, swap_endian_32b, le32, le32s}

-- An `unsigned int`.
abbrev pub IsWord : ℕ → Type 0
IsWord w = w < 0x1_0000_0000

swap_endian_dw_self : (w : ℕ) → IsWord w → swap_endian_dw (swap_endian_dw w) ≡ w
unfolding swap_endian_dw
swap_endian_dw_self w h = omega arith

-- Swapping a word reverses its four bytes in memory.
le32-swap_endian_dw : (w : ℕ) → IsWord w → le32 (swap_endian_dw w) ≡ reverse (le32 w)
unfolding swap_endian_dw
le32-swap_endian_dw w h = ground arith

-- On the eight words of a coordinate `SWAP_ENDIAN_32B` reverses the 32 bytes in memory.
swap_endian_32b-reverse :
    (a b c d e f g h : ℕ) (ws : List ℕ)
    → ws ≡ a ∷ b ∷ c ∷ d ∷ e ∷ f ∷ g ∷ h ∷ []
    → IsWord a
    → IsWord b
    → IsWord c
    → IsWord d
    → IsWord e
    → IsWord f
    → IsWord g
    → IsWord h
    → le32s (swap_endian_32b ws) ≡ reverse (le32s ws)
unfolding swap_endian_32b
swap_endian_32b-reverse a b c d e f g h ws eq ha hb hc hd he hf hg hh = rw eq (λ i.
    le32-swap_endian_dw h hh i
    ++ (le32-swap_endian_dw g hg i
        ++ (le32-swap_endian_dw f hf i
            ++ (le32-swap_endian_dw e he i
                ++ (le32-swap_endian_dw d hd i
                    ++ (le32-swap_endian_dw c hc i
                        ++ (le32-swap_endian_dw b hb i ++ (le32-swap_endian_dw a ha i ++ []))))))))
