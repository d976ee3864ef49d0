-- ===== src/VideoZip/Handles.antt =====
-- What a VideoZip holds of libvpx.
use ryulib_cpp.Common.{
  ℕ, ◌+◌, ◌-◌, ◌≡◌, refl, sym, ap, ◌∙◌, Bool, true, false, some, if◌then◌else◌, if-true, if-false,
  arith,
}
use ryulib_cpp.VideoZip.{VideoZip, Answers, configure, open_encoder, close_encoder}

abbrev pub one_if : Bool → ℕ
one_if true = 1
one_if false = 0

-- An image and an encoder where it is opened, else nothing.
pub record IsOwned (z : VideoZip) : Type 0 where
  pub images : z.images ≡ one_if z.is_opened
  pub codecs : z.codecs ≡ one_if z.is_opened

closed-IsOwned :
    (z : VideoZip) (b : Bool)
    → z.is_opened ≡ b
    → IsOwned z
    → (z' : VideoZip) × (close_encoder z ≡ some z') × IsOwned z' × (z'.is_opened ≡ false)
unfolding close_encoder
closed-IsOwned z true e o =
    let none_left = record z { is_opened = false; images = 0; codecs = 0 } in
    (
      none_left,
      rw (e, o.images ∙ ap one_if e, o.codecs ∙ ap one_if e),
      record { images = refl; codecs = refl },
      refl,
    )
closed-IsOwned z false e o = (z, if-false _ _ e, o, e)

pub close_encoder-IsOwned :
    (z : VideoZip)
    → IsOwned z
    → (z' : VideoZip) × (close_encoder z ≡ some z') × IsOwned z' × (z'.is_opened ≡ false)
close_encoder-IsOwned z o = closed-IsOwned z z.is_opened refl o

configure-IsOwned :
    (a : Answers) (width height : ℕ) (z : VideoZip) (c i : Bool)
    → a.configured ≡ c
    → a.inited ≡ i
    → z.images ≡ 1
    → z.codecs ≡ 0
    → z.is_opened ≡ false
    → (ok : Bool) × (z' : VideoZip) × (configure a width height z ≡ (ok, z'))
      × IsOwned z'
      × (z'.is_opened ≡ ok)
unfolding configure
configure-IsOwned a width height z false i ec ei hi hc ho = (
  false,
  record z { images = z.images - 1 },
  if-false _ _ ec,
  record { images = omega (arith, hi) ∙ sym (ap one_if ho); codecs = hc ∙ sym (ap one_if ho) },
  ho,
)
configure-IsOwned a width height z true true ec ei hi hc ho = (
  true,
  record z { width = width; height = height; is_opened = true; codecs = z.codecs + 1 },
  if-true _ _ ec ∙ if-true _ _ ei,
  record { images = hi; codecs = omega (arith, hc) },
  refl,
)
configure-IsOwned a width height z true false ec ei hi hc ho = (
  false,
  record z { width = width; height = height; images = z.images - 1 },
  if-true _ _ ec ∙ if-false _ _ ei,
  record { images = omega (arith, hi) ∙ sym (ap one_if ho); codecs = hc ∙ sym (ap one_if ho) },
  ho,
)

opened-IsOwned :
    (a : Answers) (z : VideoZip) (width height : ℕ) (b : Bool)
    → a.allocated ≡ b
    → IsOwned z
    → z.is_opened ≡ false
    → (ok : Bool) × (z' : VideoZip) × ((if a.allocated
          then configure a width height (record z { images = z.images + 1; planes = a.img_block })
          else (false, z))
        ≡ (ok, z'))
      × IsOwned z'
      × (z'.is_opened ≡ ok)
opened-IsOwned a z width height true e o h =
    let (ok, z', ec, o', h') =
      configure-IsOwned a width height (record z { images = z.images + 1; planes = a.img_block })
        a.configured a.inited refl refl (omega (arith, o.images ∙ ap one_if h))
        (o.codecs ∙ ap one_if h) h in
    (ok, z', if-true _ _ e ∙ ec, o', h')
opened-IsOwned a z width height false e o h = (false, z, if-false _ _ e, o, h)

-- VideoZip.open, on an object that holds one image and one encoder where it is opened and none
-- where it is not, ends so again without a fault, whatever libvpx answers, and is opened exactly
-- where it answers true.
pub open_encoder-IsOwned :
    (a : Answers) (z : VideoZip) (width height : ℕ)
    → IsOwned z
    → (ok : Bool) × (z' : VideoZip) × (open_encoder a z width height ≡ some (ok, z'))
      × IsOwned z'
      × (z'.is_opened ≡ ok)
unfolding open_encoder
open_encoder-IsOwned a z width height o =
    let (z₁, e₁, o₁, h₁) = close_encoder-IsOwned z o in
    let (ok, z₂, e₂, o₂, h₂) = opened-IsOwned a z₁ width height a.allocated refl o₁ h₁ in
    (ok, z₂, rw e₁ (ap some e₂), o₂, h₂)
