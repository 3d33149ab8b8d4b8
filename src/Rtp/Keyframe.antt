-- ===== src/Rtp/Keyframe.antt =====
-- audio_bridge.py: the payload descriptors of RFC 7741, and what the keyframe test reads in them.
use ha_intratone.Base.{
  ℕ, suc, ◌+◌, ◌*◌, ◌/◌, ◌%◌, ◌≤◌, Bool, true, false, Option, none, some, [], ◌∷◌, ◌++◌, length,
  ◌==◌, ◌||◌, is_some, get_or, ap, ◌∙◌, lt→leb, le→ltb, length-append, ◌≡◌, refl, arith,
}
use ha_intratone.Base.Bytes.{Bytes, byte_at}
use ha_intratone.Rtp.Packet.{
  is_vp8_keyframe, descriptor_size, after_picture_id, is_key_at, bit, one_if,
}

-- The PictureID of 7 or of 15 bits.
pub data PictureId : Type 0 where
  no_id : PictureId
  short_id : ℕ → PictureId
  long_id : ℕ → ℕ → PictureId

-- The optional fields behind the extension byte, which has `spare` in its low bits.
pub record Extension : Type 0 where
  pub picture_id : PictureId
  pub tl0_index : Option ℕ
  pub has_tid : Bool
  pub has_key_index : Bool
  pub tid_key_index : ℕ
  pub spare : ℕ

has_id : PictureId → Bool
has_id no_id = false
has_id _ = true

id_bytes : PictureId → Bytes
id_bytes no_id = []
id_bytes (short_id n) = n % 128 ∷ []
id_bytes (long_id m n) = (128 + m % 128) ∷ n ∷ []

byte_if : Bool → ℕ → Bytes
byte_if true b = b ∷ []
byte_if false b = []

extension_byte : Bool → Bool → Bool → Bool → ℕ → ℕ
extension_byte i l t k spare =
    one_if i * 128 + one_if l * 64 + one_if t * 32 + one_if k * 16 + spare % 16

-- The fields behind the first byte.
unfoldable pub extension_bytes : Extension → Bytes
unfolding has_id id_bytes byte_if extension_byte
extension_bytes e =
    extension_byte (has_id e.picture_id) (is_some e.tl0_index) e.has_tid e.has_key_index e.spare
    ∷ (id_bytes e.picture_id
        ++ (byte_if (is_some e.tl0_index) (get_or e.tl0_index 0)
            ++ byte_if (e.has_tid || e.has_key_index) e.tid_key_index))

-- The descriptor of a packet that begins partition 0; `flags` are the bits R and N.
unfoldable pub descriptor : ℕ → Option Extension → Bytes
unfolding extension_bytes
descriptor flags none = (flags % 4 * 32 + 16) ∷ []
descriptor flags (some e) = (128 + flags % 4 * 32 + 16) ∷ extension_bytes e

module _ (i l t k : Bool) (spare : ℕ) where
  abbrev ext : ℕ
  ext = extension_byte i l t k spare

  one_if_bound : (b : Bool) → one_if b ≤ 1
  one_if_bound true = omega arith
  one_if_bound false = omega arith

  one_if-== : (b : Bool) → (one_if b == 1) ≡ b
  one_if-== true = refl
  one_if-== false = refl

  bits : (bit 7 ext ≡ i) × (bit 6 ext ≡ l) × (bit 5 ext ≡ t) × (bit 4 ext ≡ k)
  unfolding extension_byte
  bits = (
    ap (λ n. n == 1) (omega (arith, one_if_bound i, one_if_bound l, one_if_bound t, one_if_bound k))
        ∙ one_if-== i,
    ap (λ n. n == 1) (omega (arith, one_if_bound i, one_if_bound l, one_if_bound t, one_if_bound k))
        ∙ one_if-== l,
    ap (λ n. n == 1) (omega (arith, one_if_bound i, one_if_bound l, one_if_bound t, one_if_bound k))
        ∙ one_if-== t,
    ap (λ n. n == 1) (omega (arith, one_if_bound i, one_if_bound l, one_if_bound t, one_if_bound k))
        ∙ one_if-== k,
  )

the_bit : (b n : ℕ) → b / 128 % 2 ≡ n → bit 7 b ≡ (n == 1)
the_bit b n h = ap (λ m. m == 1) h

id_read :
    (p : PictureId) (b0 ext : ℕ) (tail rest : Bytes)
    → bit 7 ext ≡ has_id p
    → after_picture_id (b0 ∷ ext ∷ (id_bytes p ++ tail) ++ rest) ext
      ≡ some (2 + length (id_bytes p))
unfolding after_picture_id has_id id_bytes
id_read no_id b0 ext tail rest h = rw h refl
id_read (short_id n) b0 ext tail rest h = rw (
  h,
  lt→leb (suc (suc (suc (length (tail ++ rest))))) 2 (omega arith),
  the_bit (n % 128) 0 (omega arith),
)
id_read (long_id m n) b0 ext tail rest h = rw (
  h,
  lt→leb (suc (suc (suc (suc (length (tail ++ rest)))))) 2 (omega arith),
  the_bit (128 + m % 128) 1 (omega arith),
)

length-byte_if : (t : Bool) (b : ℕ) → length (byte_if t b) ≡ one_if t
unfolding byte_if
length-byte_if true b = refl
length-byte_if false b = refl

module _ (flags : ℕ) where
  plain_bit : bit 7 (flags % 4 * 32 + 16) ≡ false
  plain_bit = the_bit (flags % 4 * 32 + 16) 0 (omega arith)

  extended_bit : bit 7 (128 + flags % 4 * 32 + 16) ≡ true
  extended_bit = the_bit (128 + flags % 4 * 32 + 16) 1 (omega arith)

descriptor_size-descriptor :
    (flags : ℕ) (o : Option Extension) (rest : Bytes)
    → descriptor_size (descriptor flags o ++ rest) ≡ some (length (descriptor flags o))
unfolding descriptor_size descriptor extension_bytes
descriptor_size-descriptor flags none rest = rw (plain_bit flags)
descriptor_size-descriptor flags (some e) rest =
    let id = id_bytes e.picture_id in
    let tl0 = byte_if (is_some e.tl0_index) (get_or e.tl0_index 0) in
    let tid = byte_if (e.has_tid || e.has_key_index) e.tid_key_index in
    let (b7, b6, b5, b4) =
      bits (has_id e.picture_id) (is_some e.tl0_index) e.has_tid e.has_key_index e.spare in
    let payload = descriptor flags (some e) ++ rest in
    let read : after_picture_id payload (byte_at payload 1) ≡ some (2 + length id) =
      id_read e.picture_id (128 + flags % 4 * 32 + 16) _ (tl0 ++ tid) rest b7 in
    let has_tl0 : bit 6 (byte_at payload 1) ≡ is_some e.tl0_index = b6 in
    let tid_bit : bit 5 (byte_at payload 1) ≡ e.has_tid = b5 in
    let key_bit : bit 4 (byte_at payload 1) ≡ e.has_key_index = b4 in
    rw
      (extended_bit flags, lt→leb (length payload) 1 (omega arith), read, has_tl0, tid_bit, key_bit)
      (ap some (
        omega (
          arith,
          length-append id (tl0 ++ tid),
          length-append tl0 tid,
          length-byte_if (is_some e.tl0_index) (get_or e.tl0_index 0),
          length-byte_if (e.has_tid || e.has_key_index) e.tid_key_index,
        )))

byte_at-append : (xs : Bytes) (b : ℕ) (bs : Bytes) → byte_at (xs ++ b ∷ bs) (length xs) ≡ b
byte_at-append [] b bs = refl
byte_at-append (x ∷ xs) b bs = byte_at-append xs b bs

four : (n : ℕ) → n / 16 % 2 ≡ 1 → bit 4 n ≡ true
four n h = ap (λ m. m == 1) h

low : (n : ℕ) → n % 8 ≡ 0 → (n % 8 == 0) ≡ true
low n h = ap (λ m. m == 0) h

starts_partition :
    (flags : ℕ) (o : Option Extension) (rest : Bytes)
    → (bit 4 (byte_at (descriptor flags o ++ rest) 0) ≡ true)
      × ((byte_at (descriptor flags o ++ rest) 0 % 8 == 0) ≡ true)
unfolding descriptor
starts_partition flags none rest =
    (four (flags % 4 * 32 + 16) (omega arith), low (flags % 4 * 32 + 16) (omega arith))
starts_partition flags (some e) rest =
    (four (128 + flags % 4 * 32 + 16) (omega arith), low (128 + flags % 4 * 32 + 16) (omega arith))

-- A payload of four bytes at least, with any payload descriptor of a packet that begins partition 0
-- and a frame behind it, is a keyframe just if the frame's first byte is even.
pub is_vp8_keyframe-descriptor :
    (flags : ℕ) (o : Option Extension) (b : ℕ) (bs : Bytes)
    → 4 ≤ length (descriptor flags o ++ b ∷ bs)
    → is_vp8_keyframe (descriptor flags o ++ b ∷ bs) ≡ (b % 2 == 0)
unfolding is_vp8_keyframe is_key_at
is_vp8_keyframe-descriptor flags o b bs long =
    let (s_bit, pid) = starts_partition flags o (b ∷ bs) in
    rw (
      le→ltb (length (descriptor flags o ++ b ∷ bs)) 4 long,
      s_bit,
      pid,
      descriptor_size-descriptor flags o (b ∷ bs),
      lt→leb (length (descriptor flags o ++ b ∷ bs)) (length (descriptor flags o))
          (omega (arith, length-append (descriptor flags o) (b ∷ bs))),
      byte_at-append (descriptor flags o) b bs,
    )
