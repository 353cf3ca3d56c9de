-- ===== src/Lzf/Safety.antt =====
-- What holds of the LZF decoder on any input: it ends, and it fills its buffer exactly.
use redis_agent.Common.{
  ℕ, zero, suc, ◌+◌, ◌-◌, ◌*◌, ◌/◌, ◌^◌, ◌≤◌, ltb, ◌==◌, bit_and, Bytes, [], ◌∷◌, length, inl, inr,
  Option-cases, length-replicate, get_elem?, set, replicate, ◌≡◌, refl, ap, arith, Bool-cases,
}
use redis_agent.Common.Int.{pos}
use redis_agent.Reader.{Result, ok, panic, stuck, index_out_of_range}
use redis_agent.Lzf.{
  State, copy_literal, copy_match, back_reference, copy_back, round, loop, lzf_decompress, finish,
}

length-set : (xs : Bytes) (i v : ℕ) → length (set xs i v) ≡ length xs
length-set [] i v = refl
length-set (x ∷ xs) zero v = refl
length-set (x ∷ xs) (suc i) v = ap suc (length-set xs i v)

-- A piece of a round: no fuel runs out, the buffer keeps its size, and the input does not grow.
abbrev Sound : State → Result State → Type 0
Sound st (ok st') = (length st'.out ≡ length st.out) × (length st'.input ≤ length st.input)
Sound st (panic e) = Unit
Sound st stuck = ⊥

-- `Sound` after a step that itself is sound.
Sound-trans :
    (st mid : State) (r : Result State)
    → length mid.out ≡ length st.out
    → length mid.input ≤ length st.input
    → Sound mid r
    → Sound st r
Sound-trans st mid (ok st') out input h = omega arith
Sound-trans st mid (panic e) out input h = tt
Sound-trans st mid stuck out input h = h

copy_literal-Sound :
    (n : ℕ) (s out : Bytes) (o : ℕ)
    → let st : State = record { input = s; out = out; o = o } in Sound st (copy_literal n st)
unfolding copy_literal
copy_literal-Sound zero s out o = omega arith
copy_literal-Sound (suc n) [] out o = tt
copy_literal-Sound (suc n) (b ∷ s) out o = elim (Bool-cases (ltb o (length out))) [
  | inl room ↦ rw room (
      Sound-trans (record { input = b ∷ s; out = out; o = o })
        (record { input = s; out = set out o b; o = o + 1 }) _ (length-set out o b) (omega arith)
        (copy_literal-Sound n s (set out o b) (o + 1)))
  | inr full ↦ rw full tt
]

copy_match-Sound :
    (n ref : ℕ) (s out : Bytes) (o : ℕ)
    → let st : State = record { input = s; out = out; o = o } in Sound st (copy_match n ref st)
unfolding copy_match
copy_match-Sound zero ref s out o = omega arith
copy_match-Sound (suc n) ref s out o = elim (Option-cases (get_elem? out ref)) [
  | inl gone ↦ rw (gone, copy_match) tt
  | inr (b, found) ↦ elim (Bool-cases (ltb o (length out))) [
    | inl room ↦
        rw (found, copy_match, room)
          (Sound-trans (record { input = s; out = out; o = o })
            (record { input = s; out = set out o b; o = o + 1 }) _ (length-set out o b)
            (omega arith) (copy_match-Sound n (ref + 1) s (set out o b) (o + 1)))
    | inr full ↦ rw (found, copy_match, full) tt
  ]
]

back_reference-Sound :
    (ctrl len : ℕ) (s out : Bytes) (o : ℕ)
    → let st : State = record { input = s; out = out; o = o } in
      Sound st (back_reference ctrl len st)
unfolding back_reference
back_reference-Sound ctrl len [] out o = tt
back_reference-Sound ctrl len (low ∷ s) out o =
    let back = bit_and ctrl 0x1f * 2 ^ 8 + low + 1 in
    elim (Bool-cases (ltb o back)) [
      | inl far ↦ rw far tt
      | inr near ↦ rw near (
          Sound-trans (record { input = low ∷ s; out = out; o = o })
            (record { input = s; out = out; o = o }) _ refl (omega arith)
            (copy_match-Sound (len + 2) (o - back) s out o))
    ]

round-Sound :
    (ctrl : ℕ) (s out : Bytes) (o : ℕ)
    → let st : State = record { input = s; out = out; o = o } in Sound st (round ctrl st)
unfolding round copy_back
round-Sound ctrl s out o = elim (Bool-cases (ltb ctrl 32)) [
  | inl run ↦ rw run (copy_literal-Sound (ctrl + 1) s out o)
  | inr back ↦ rw back (elim (Bool-cases (ctrl / 2 ^ 5 == 7)) [
    | inl long ↦ rw long (extended s)
    | inr short ↦ rw short (back_reference-Sound ctrl (ctrl / 2 ^ 5) s out o)
  ])
]
  where
    extended :
        (t : Bytes)
        → Sound
            (record { input = t; out = out; o = o })
            (elim t [
              | [] ↦ panic index_out_of_range
              | more ∷ rest ↦
                  back_reference ctrl (7 + more) (record { input = rest; out = out; o = o })
            ])
    extended [] = tt
    extended (more ∷ rest) =
        Sound-trans (record { input = more ∷ rest; out = out; o = o })
          (record { input = rest; out = out; o = o }) _ refl (omega arith)
          (back_reference-Sound ctrl (7 + more) rest out o)

loop-Sound :
    (fuel : ℕ) (s out : Bytes) (o : ℕ)
    → length s ≤ fuel
    → let st : State = record { input = s; out = out; o = o } in Sound st (loop fuel st)
unfolding loop
loop-Sound zero [] out o h = omega arith
loop-Sound zero (b ∷ s) out o h = absurd (omega arith)
loop-Sound (suc fuel) [] out o h = omega arith
loop-Sound (suc fuel) (ctrl ∷ s) out o h =
    after (round ctrl (record { input = s; out = out; o = o })) (round-Sound ctrl s out o)
      (λ st p. loop-Sound fuel st.input st.out st.o p)
  where
    after :
        (r : Result State)
        → Sound (record { input = s; out = out; o = o }) r
        → ((st : State) → length st.input ≤ fuel → Sound st (loop fuel st))
        → Sound
            (record { input = ctrl ∷ s; out = out; o = o })
            (elim r [ ok st' ↦ loop fuel st' | panic e ↦ panic e | stuck ↦ stuck ])
    after (ok st) snd more =
        Sound-trans (record { input = ctrl ∷ s; out = out; o = o }) st _ snd.0 (omega arith)
          (more st (omega arith))
    after (panic e) snd more = tt
    after stuck snd more = snd

-- What `lzfDecompress` may answer when it is asked for n bytes.
abbrev pub Fills : ℕ → Result Bytes → Type 0
Fills n (ok bs) = length bs ≡ n
Fills n (panic e) = Unit
Fills n stuck = ⊥

finish-Sound :
    (n : ℕ) (st : State) (r : Result State) → length st.out ≡ n → Sound st r → Fills n (finish n r)
finish-Sound n st (ok st') size h = elim (Bool-cases (st'.o == n)) [
  | inl done ↦ rw done (omega arith)
  | inr wrong ↦ rw wrong tt
]
finish-Sound n st (panic e) size h = tt
finish-Sound n st stuck size h = h

-- On every input the decoder ends, in a panic or in a string of exactly the length asked for.
pub lzf_decompress-Fills : (input : Bytes) (n : ℕ) → Fills n (lzf_decompress input (pos n))
unfolding lzf_decompress
lzf_decompress-Fills input n =
    finish-Sound n (record { input = input; out = replicate n 0; o = 0 }) _ (length-replicate n 0)
      (loop-Sound (length input) input (replicate n 0) 0 (omega arith))
