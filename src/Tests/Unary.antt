-- ===== src/Tests/Unary.antt =====
-- A codec that keeps the documented laws, with bytes as runs of one character ended by another.
use Prim.Native.Char.{char, code}
use Prim.Native.String.{◌∷◌ as ◌◂◌, [] as empty}
use kidp.Prelude.{
  ℕ, zero, suc, ◌+◌, ◌≡◌, refl, sym, ◌∙◌, ap, String, Bool, true, false, [], ◌∷◌, length, eqb,
  if◌then◌else◌, ◌||◌, arith,
}
use kidp.Result.{Result, ok, err, failed}
use kidp.Time.{seconds}
use kidp.Callbacks.{CallbackRequest, Bytes, Codec, CodecLaws}

abbrev unary : ℕ → String → String
unary zero s = char 46 tt ◂ s
unary (suc n) s = char 120 tt ◂ unary n s

abbrev pub encode : Bytes → String
encode [] = empty
encode (b ∷ bs) = unary b (encode bs)

abbrev decode_from : ℕ → String → Bytes
decode_from n empty = []
decode_from n (c ◂ s) = if eqb (code c) 46 then n ∷ decode_from 0 s else decode_from (suc n) s

decode-unary : (n m : ℕ) (s : String) → decode_from m (unary n s) ≡ (n + m) ∷ decode_from 0 s
decode-unary zero m s = ap (λ k. k ∷ decode_from 0 s) (omega arith)
decode-unary (suc n) m s = decode-unary n (suc m) s ∙ ap (λ k. k ∷ decode_from 0 s) (omega arith)

decode-encode_lem : (bytes : Bytes) → decode_from 0 (encode bytes) ≡ bytes
decode-encode_lem [] = refl
decode-encode_lem (b ∷ bs) = grind (arith, decode-unary b 0 (encode bs), decode-encode_lem bs)

abbrev pub repeated : ℕ → ℕ → Bytes
repeated zero b = []
repeated (suc n) b = b ∷ repeated n b

abbrev head_or : Bytes → ℕ
head_or [] = 0
head_or (b ∷ bs) = b

-- A text that does not start with a run or its end is refused.
abbrev decode : String → Result Bytes
decode empty = ok []
decode (c ◂ s) =
    if eqb (code c) 46 || eqb (code c) 120
    then ok (decode_from 0 (c ◂ s))
    else err (failed "illegal base64 data")

decode-encode_ok : (bytes : Bytes) → decode (encode bytes) ≡ ok (decode_from 0 (encode bytes))
decode-encode_ok [] = refl
decode-encode_ok (zero ∷ bs) = refl
decode-encode_ok (suc b ∷ bs) = refl

-- A signature starts with the first byte of its key. All texts of a callback are the one callback,
-- and all times the one time.
abbrev pub unary_codec : CallbackRequest → Codec
unary_codec callback = record {
  encode64 = encode;
  decode64 = decode;
  public_key = λ key. repeated 32 (head_or key);
  sign = λ key message. repeated 64 (head_or key);
  verify = λ key message sig. eqb (head_or key) (head_or sig);
  format_time = λ t. "1970-01-01T00:16:40Z";
  parse_time = λ text. ok (seconds 1000);
  marshal_callback = λ c. ok "{}";
  decode_callback = λ body. ok callback;
}

length-repeated : (n b : ℕ) → length (repeated n b) ≡ n
length-repeated zero b = refl
length-repeated (suc n) b = ap suc (length-repeated n b)

absurd_bool : {n : ℕ} → false ≡ true → n ≡ 0
absurd_bool h = cc

abbrev blank_text : String → Bool
blank_text empty = true
blank_text (c ◂ s) = false

unary_full : (n : ℕ) (s : String) → blank_text (unary n s) ≡ false
unary_full zero s = refl
unary_full (suc n) s = refl

encode_nonempty_lem : (bytes : Bytes) → encode bytes ≡ "" → length bytes ≡ 0
encode_nonempty_lem [] e = refl
encode_nonempty_lem (b ∷ bs) e = absurd_bool (sym (unary_full b (encode bs)) ∙ ap blank_text e)

pub unary-CodecLaws : (callback : CallbackRequest) → CodecLaws (unary_codec callback)
unary-CodecLaws callback = record {
  decode-encode = λ bytes. decode-encode_ok bytes ∙ ap ok (decode-encode_lem bytes);
  public_key_size = λ key. length-repeated 32 (head_or key);
  verify-sign = λ key message. ground arith;
  signature_size = λ key message. length-repeated 64 (head_or key);
  encode_nonempty = encode_nonempty_lem;
}
