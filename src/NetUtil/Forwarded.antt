-- ===== src/NetUtil/Forwarded.antt =====
-- What a client can do to the address that it is given, by headers of its own.
use Prim.Native.Char.{Char, code}
use mathlib.Core.List.{reverse, reverse-append}
use text.Mathlib.TextLemmas.{nil-append, cons-append, cons-ne-nil}
use llmgateway.Prelude.{
  ◌≡◌, refl, ap, ◌∙◌, inl, inr, true, false, List, [], ◌∷◌, ◌++◌, some, String, str_eq_ne,
  str_append, ◌==◌, arith, Bool-cases,
}
use llmgateway.NetUtil.{
  NetPackage, Request, Extractor, split_commas, trim_space, clean_entry, clean_all,
  split_forwarded_for, first_line, is_trusted_ip, first_untrusted, remote_ip, client_ip,
}

-- A header value to which a proxy has appended.
abbrev pub joined : String → String → String
joined h k = str_append h (str_append "," k)

unfoldable all_parts : String → List String
unfolding split_commas
all_parts s = let (first, rest) = split_commas s in first ∷ rest

split_commas-joined : (h k : String) → all_parts (joined h k) ≡ all_parts h ++ all_parts k
unfolding all_parts split_commas
split_commas-joined String.[] k =
    ap all_parts (nil-append (str_append "," k) ∙ cons-append _ "" k) ∙ (rw nil-append refl)
split_commas-joined (String.◌∷◌ c h) k =
    ap all_parts (cons-append c h (str_append "," k)) ∙ elim (Bool-cases (code c == b',')) [
      | inl e ↦ rw (e, split_commas) (ap (◌∷◌ "") (split_commas-joined h k))
      | inr e ↦ rw (e, split_commas) (ap (on_first c) (split_commas-joined h k))
    ]
  where
    on_first : Char → List String → List String
    on_first c [] = []
    on_first c (s ∷ ss) = String.◌∷◌ c s ∷ ss

module _ (N : NetPackage) where
  clean_all-append :
      (xs ys : List String) → clean_all N (xs ++ ys) ≡ clean_all N xs ++ clean_all N ys
  unfolding clean_all clean_entry
  clean_all-append [] ys = refl
  clean_all-append (x ∷ xs) ys = ground (arith, clean_all-append xs ys)

  split_forwarded_for-parts : (h : String) → split_forwarded_for N h ≡ clean_all N (all_parts h)
  unfolding split_forwarded_for all_parts
  split_forwarded_for-parts String.[] = unfold split_commas clean_all clean_entry trim_space in refl
  split_forwarded_for-parts (String.◌∷◌ c h) =
      let full = str_eq_ne (String.◌∷◌ c h) "" (cons-ne-nil c h) in
      rw (full, split_forwarded_for) refl

  split_forwarded_for-joined :
      (h k : String)
      → split_forwarded_for N (joined h k) ≡ split_forwarded_for N h ++ split_forwarded_for N k
  split_forwarded_for-joined h k =
      split_forwarded_for-parts (joined h k)
      ∙ ap (clean_all N) (split_commas-joined h k)
      ∙ clean_all-append (all_parts h) (all_parts k)
      ∙ rw (split_forwarded_for-parts h, split_forwarded_for-parts k) refl

  -- An entry that is found stays found, whatever stands behind it.
  first_untrusted-append :
      (e : Extractor N) (xs ys : List String) (ip : String)
      → first_untrusted N e xs ≡ some ip
      → first_untrusted N e (xs ++ ys) ≡ some ip
  unfolding first_untrusted
  first_untrusted-append e [] ys ip h = cc
  first_untrusted-append e (x ∷ xs) ys ip h = ground (arith, h, first_untrusted-append e xs ys ip)

  -- A request whose immediate peer is no trusted proxy has the address of the peer, whatever its
  -- headers say.
  pub client_ip-untrusted :
      (e : Extractor N) (r : Request)
      → is_trusted_ip N e (remote_ip N r.remote_addr) ≡ false
      → client_ip N e r ≡ remote_ip N r.remote_addr
  unfolding client_ip
  client_ip-untrusted e r t = ground (arith, t)

  -- When a client can choose the address that it is given, behind a trusted proxy, which is the peer
  -- of the request. Where the proxies have joined addresses to the first line of X-Forwarded-For with
  -- commas, and one of these is not trusted, the last such address is the client's: neither what the
  -- client put before it in that line, nor further lines, nor any X-Real-IP change that. But where
  -- the proxies have written lines of their own behind the line of the client, these are not read: the
  -- address is the same as if the client's line stood alone.
  pub client_ip-joined :
      (e : Extractor N) (r : Request) (spoof line real ip : String) (more others : List String)
      → is_trusted_ip N e (remote_ip N r.remote_addr) ≡ true
      → first_untrusted N e (reverse (split_forwarded_for N line)) ≡ some ip
      → (client_ip N e (record r { forwarded_for = joined spoof line ∷ more; real_ip = real }) ≡ ip)
        × (client_ip N e (record r { forwarded_for = spoof ∷ line ∷ others })
            ≡ client_ip N e (record r { forwarded_for = spoof ∷ [] }))
  unfolding client_ip first_line
  client_ip-joined e r spoof line real ip more others t h =
      let q = split_forwarded_for-joined spoof line in
      let turned =
        ap reverse q ∙ reverse-append (split_forwarded_for N spoof) (split_forwarded_for N line) in
      let found : first_untrusted N e (reverse (split_forwarded_for N (joined spoof line)))
          ≡ some ip =
        ap (first_untrusted N e) turned
        ∙ first_untrusted-append e (reverse (split_forwarded_for N line))
            (reverse (split_forwarded_for N spoof)) ip h in
      (ground (arith, t, found), refl)
