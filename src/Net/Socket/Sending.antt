-- ===== src/Net/Socket/Sending.antt =====
-- What `send_all` hands over.
use garcon.Prelude.{
  ℕ, zero, suc, ◌+◌, ◌≡◌, ◌≢◌, refl, ap, sym, ◌∙◌, Option, some, [], ◌∷◌, ◌++◌, append_assoc,
  append-nil, length, take, drop, take-append-drop, length-drop, ◌≤◌, ◌<◌, arith, Bool-cases, inl,
  inr, ◌==◌, subst,
}
use garcon.Text.{Bytes}
use garcon.Http.Framing.{IoStatus, io_ok}
use garcon.Net.Calls.{
  Errno, eintr, Sent, sent, not_sent, is_eintr, is_eintr-eintr, status_from_errno-ne-ok,
}
use garcon.Net.Socket.{send_all, send_round}

-- `delivered` is what the peer was sent so far.
module _ {W : Type 0} (delivered : W → Bytes) where
  -- Everything was handed over and the status says so, or a front part was and the status is another.
  pub data IsHanded (before content : Bytes) : W × Option IoStatus → Type 0 where
    whole : {v : W} → delivered v ≡ before ++ content → IsHanded before content (v, some io_ok)
    part :
        {v : W} {status : IoStatus} (front rest : Bytes)
        → content ≡ front ++ rest
        → delivered v ≡ before ++ front
        → status ≢ io_ok
        → IsHanded before content (v, some status)

  pub further :
      (before front rest : Bytes) (r : W × Option IoStatus)
      → IsHanded (before ++ front) rest r
      → IsHanded before (front ++ rest) r
  further before front rest _ (whole {v} e) = whole (e ∙ append_assoc before front rest)
  further before front rest _ (part {v} {status} more left c e n) =
      part (front ++ more) left (ap (λ t. front ++ t) c ∙ sym (append_assoc front more left))
        (e ∙ append_assoc before front more) n

module _ {W : Type 0} (send : W → Bytes → W × Sent) (delivered : W → Bytes) (interrupts : W → ℕ)
    (taken : (w : W) (content : Bytes) (v : W) (n : ℕ)
      → send w content ≡ (v, sent n)
      → (n ≤ length content)
        × (delivered v ≡ delivered w ++ take n content)
        × (interrupts v ≤ interrupts w))
    (kept : (w : W) (content : Bytes) (v : W) (error : Errno)
      → send w content ≡ (v, not_sent error)
      → delivered v ≡ delivered w)
    (finite : (w : W) (content : Bytes) (v : W)
      → send w content ≡ (v, not_sent eintr)
      → interrupts v < interrupts w) where
  round_IsHanded :
      (again : Bytes → W → W × Option IoStatus) (content : Bytes) (w : W) (c : W × Sent)
      → ((rest : Bytes) (v : W)
          → length rest + interrupts v < length content + interrupts w
          → IsHanded delivered (delivered v) rest (again rest v))
      → send w content ≡ c
      → IsHanded delivered (delivered w) content (send_round send again content c)
  unfolding send_round
  round_IsHanded again content w (v, sent n) k e =
      let (le, d, i) = taken w content v n e in
      elim (Bool-cases (n == 0)) [
        | inl z ↦
            let zero_taken : n ≡ 0 = ground arith in
            let none_taken : delivered v ≡ delivered w ++ [] = rw zero_taken at d in
            rw z (part [] content refl none_taken (λ f. cc))
        | inr z ↦
            let less : length (drop n content) + interrupts v < length content + interrupts w =
              ground (arith, length-drop n content) in
            let later =
              subst (λ t. IsHanded delivered t (drop n content) (again (drop n content) v)) d
                (k (drop n content) v less) in
            rw z (
              subst (λ t. IsHanded delivered (delivered w) t (again (drop n content) v))
                (take-append-drop n content)
                (further delivered (delivered w) (take n content) (drop n content) _ later))
      ]
  round_IsHanded again content w (v, not_sent error) k e =
      let d = kept w content v error e in
      elim (Bool-cases (is_eintr error)) [
        | inl i ↦
            let f : send w content ≡ (v, not_sent eintr) = rw (is_eintr-eintr error i) at e in
            let less = finite w content v f in
            rw i (
              subst (λ t. IsHanded delivered t content (again content v)) d
                (k content v (omega arith)))
        | inr i ↦ rw i (
            part [] content refl (d ∙ sym (append-nil (delivered w)))
              (status_from_errno-ne-ok error))
      ]

  all_IsHanded :
      (fuel : ℕ) (content : Bytes) (w : W)
      → length content + interrupts w < fuel
      → IsHanded delivered (delivered w) content (send_all send fuel content w)
  unfolding send_all
  all_IsHanded fuel [] w h = whole (sym (append-nil (delivered w)))
  all_IsHanded zero (b ∷ bs) w h = absurd (omega arith)
  all_IsHanded (suc fuel) (b ∷ bs) w h =
      round_IsHanded (send_all send fuel) (b ∷ bs) w (send w (b ∷ bs))
        (λ rest v less. all_IsHanded fuel rest v (omega arith)) refl

  -- `send_all` returns, and with `ok` where the whole content went to the peer in order and once, or
  -- with another status where a front part of it did; where `send` takes a front part of what it
  -- is given and no more, nothing where it fails, and each interruption leaves fewer to come.
  pub send_all-IsHanded :
      (content : Bytes) (w : W)
      → IsHanded delivered
          (delivered w)
          content
          (send_all send (suc (length content + interrupts w)) content w)
  send_all-IsHanded content w =
      all_IsHanded (suc (length content + interrupts w)) content w (omega arith)
