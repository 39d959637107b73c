-- ===== src/Config/Restart.antt =====
-- internal/config/config.go: VAPID keys over a restart of the server.
use gocord.Base.{
  ◌≡◌, refl, ap, sym, ◌∙◌, inl, inr, false, [], Option, none, some, arith, subst, Option-cases,
}
use gocord.Base.Assoc.{Text, text_eq}
use gocord.Push.Vapid.{
  Curve, PrivateKey, VapidKeys, Loaded, loaded, rejected, pad_scalar, new_vapid_keys,
  generate_vapid_keys,
}
use gocord.Push.Keys.{
  IsKeyPair, load_vapid_keys-new_vapid_keys, new_vapid_keys-loaded, length-pad_scalar,
  encode-filled,
}
use gocord.Config.Start.{KeyFile, have_keys, keys_from_file, fresh_keys, load_keys}

module _ (c : Curve) where
  abbrev file_of : Text → VapidKeys c → KeyFile
  file_of name keys = record {
    name = name;
    public_key = keys.public_key_base64;
    private_key = keys.private_key_base64;
  }

  fresh_keys-written :
      (name : Text) (l : Loaded c) (keys : VapidKeys c) (written : KeyFile)
      → fresh_keys c name l ≡ have_keys keys (some written)
      → (l ≡ loaded keys) × (file_of name keys ≡ written)
  unfolding fresh_keys
  fresh_keys-written name (rejected er) keys written e = absurd (cc e)
  fresh_keys-written name (loaded k) keys written e =
      let same : k ≡ keys = cc e in
      let w : file_of name k ≡ written = cc e in (ap loaded same, ap (file_of name) (sym same) ∙ w)

  -- What a file that was written is read as.
  keys_from_file-new_vapid_keys :
      (priv : PrivateKey c) (keys : VapidKeys c)
      → IsKeyPair c priv
      → new_vapid_keys c priv ≡ loaded keys
      → keys_from_file c (some (keys.public_key_base64, keys.private_key_base64)) ≡ some keys
  unfolding keys_from_file
  keys_from_file-new_vapid_keys priv keys p made =
      let (_, small, same) = new_vapid_keys-loaded c priv keys made in
      let filled : text_eq keys.private_key_base64 [] ≡ false =
        ap (λ (k : VapidKeys c). text_eq k.private_key_base64 []) (sym same)
        ∙ encode-filled (pad_scalar priv.d) 31 (length-pad_scalar priv.d small ∙ omega arith) in
      rw filled (rw (load_vapid_keys-new_vapid_keys c priv keys p made) refl)

  load_keys-fresh :
      (pub_key file : Text) (saved : Text → Option (Text × Text)) (priv : PrivateKey c)
      (keys : VapidKeys c) (written : KeyFile)
      → load_keys c pub_key [] file saved (some priv) ≡ have_keys keys (some written)
      → fresh_keys c file (new_vapid_keys c priv) ≡ have_keys keys (some written)
  unfolding load_keys text_eq generate_vapid_keys
  load_keys-fresh pub_key file saved priv keys written e =
      elim (Option-cases (keys_from_file c (saved file))) [
        | inl none_there ↦ rw (none_there, load_keys) at e
        | inr (k, there) ↦ absurd (cc (rw (there, load_keys) at e))
      ]

  -- VAPID keys that Load generated from a key pair, and whose file is read at the next start, are
  -- the keys of that start too, and nothing is written again.
  pub load_keys-load_keys :
      (pub_key pub_key' file : Text) (saved saved' : Text → Option (Text × Text))
      (priv : PrivateKey c) (generated' : Option (PrivateKey c)) (keys : VapidKeys c)
      (written : KeyFile)
      → IsKeyPair c priv
      → load_keys c pub_key [] file saved (some priv) ≡ have_keys keys (some written)
      → saved' written.name ≡ some (written.public_key, written.private_key)
      → (written.name ≡ file)
        × (load_keys c pub_key' [] file saved' generated' ≡ have_keys keys none)
  unfolding load_keys text_eq
  load_keys-load_keys pub_key pub_key' file saved saved' priv generated' keys written p first read =
      let (made, file_written) =
        fresh_keys-written file (new_vapid_keys c priv) keys written
          (load_keys-fresh pub_key file saved priv keys written first) in
      let name : written.name ≡ file = ap (λ (w : KeyFile). w.name) (sym file_written) in
      let found : saved' file ≡ some (keys.public_key_base64, keys.private_key_base64) =
        subst (λ (w : KeyFile). saved' w.name ≡ some (w.public_key, w.private_key))
          (sym file_written) read in
      (name, rw found (rw (keys_from_file-new_vapid_keys priv keys p made) refl))
