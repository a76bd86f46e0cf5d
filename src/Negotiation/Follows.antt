-- ===== src/Negotiation/Follows.antt =====
-- What `read_kex` makes of a well-formed KEXINIT packet.
use thrussh_fork.Base.{
  ◌≡◌, ◌≢◌, ◌<◌, ◌^◌, ◌/◌, ◌%◌, refl, sym, ap, ◌∙◌, Bool, false, Option, some, List, [], ◌∷◌, ◌++◌,
  Bytes, Outcome, ok, ◌>>=◌, ok_or, All, length, drop-append, arith, no_common_kex_algo,
  no_common_key_algo, no_common_cipher,
}
use mathlib.Core.Option
use thrussh_fork.Protocol.Msg
use thrussh_fork.Wire.{Encoding, IsEncoding, join}
use thrussh_fork.Negotiation.Select.{select_server, select_client}
use thrussh_fork.Negotiation.Agree.{IsName, select-agree}
use thrussh_fork.Negotiation.ReadKex.{Names, Preferred, Select, finish_kex, read_kex, write_kex}

-- What is selected, from the lists that are used. No guessed packet is ignored.
abbrev pub chosen : Select → Preferred → Bytes → Bytes → Bytes → Bytes → Outcome Names
chosen select pref kex_string key_string cipher_string mac_string = do
  kex' ← ok_or (select pref.kex kex_string) no_common_kex_algo
  key' ← ok_or (select pref.key key_string) no_common_key_algo
  cipher' ← ok_or (select pref.cipher cipher_string) no_common_cipher
  ok (record {
    kex = kex'.1;
    key = key'.1;
    cipher = cipher'.1;
    mac = Option.map (λ (m : Bool × Bytes). m.1) (select pref.mac mac_string);
    ignore_guessed = false;
  })

abbrev pub Short : Bytes → Type 0
Short s = length s < 2 ^ 24

module _ ⦃e : Encoding⦄ where
  abbrev pub strings : List Bytes → Bytes → Bytes
  strings [] rest = rest
  strings (s ∷ ss) rest = e.ssh_string s ++ strings ss rest

  module _ (laws : IsEncoding e) where
    -- The byte that `read_kex` takes for `follows` is the first of the tenth list's length.
    read_first :
        (s rest : Bytes)
        → Short s
        → (r : Bytes) × (e.read_byte (e.ssh_string s ++ rest) ≡ some (0, r))
    read_first s rest h = (
      (length s / 2 ^ 16 % 256) ∷ (length s / 2 ^ 8 % 256) ∷ (length s % 256) ∷ (s ++ rest),
      rw (laws.ssh_string_lem s, laws.u32_be_lem (length s), high) (laws.read_byte-cons 0 _),
    )
      where
        high : length s / 2 ^ 24 % 256 ≡ 0
        high = omega arith

    finish_kex_lem :
        (kex' key' cipher' : Bool × Bytes) (mac' : Option (Bool × Bytes)) (s rest : Bytes)
        → Short s
        → finish_kex kex' key' cipher' mac' (e.ssh_string s ++ rest)
          ≡ ok (record {
            kex = kex'.1;
            key = key'.1;
            cipher = cipher'.1;
            mac = Option.map (λ (m : Bool × Bytes). m.1) mac';
            ignore_guessed = false;
          })
    unfolding finish_kex
    finish_kex_lem kex' key' cipher' mac' s rest h = rw ((read_first s rest h).1)

    -- On a packet of 17 bytes and ten short name lists, `read_kex` selects from the first, second,
    -- third and fifth list, whatever follows the lists: it never finds that a guessed packet
    -- follows.
    pub read_kex_lem :
        (select : Select) (pref : Preferred) (head s1 s2 s3 s4 s5 s6 s7 s8 s9 s10 rest : Bytes)
        → length head ≡ 17
        → All Short (s1 ∷ s2 ∷ s3 ∷ s4 ∷ s5 ∷ s6 ∷ s7 ∷ s8 ∷ s9 ∷ s10 ∷ [])
        → read_kex select
            (head ++ strings (s1 ∷ s2 ∷ s3 ∷ s4 ∷ s5 ∷ s6 ∷ s7 ∷ s8 ∷ s9 ∷ s10 ∷ []) rest)
            pref
          ≡ chosen select pref s1 s2 s3 s5
    unfolding read_kex
    read_kex_lem select pref head s1 s2 s3 s4 s5 s6 s7 s8 s9 s10 rest h
          (h1, (h2, (h3, (h4, (h5, (h6, (h7, (h8, (h9, (h10, _)))))))))) =
        rw (drop-append 17 head _ h) (
          simp (
            reads s1 h1,
            reads s2 h2,
            reads s3 h3,
            reads s4 h4,
            reads s5 h5,
            reads s6 h6,
            reads s7 h7,
            reads s8 h8,
            reads s9 h9,
            last,
          ))
      where
        reads :
            (s : Bytes) → Short s → (r : Bytes) → e.read_string (e.ssh_string s ++ r) ≡ some (s, r)
        reads s short r = laws.read_string-ssh_string s r (omega arith)

        last :
            (kex' key' cipher' : Bool × Bytes) (mac' : Option (Bool × Bytes))
            → finish_kex kex' key' cipher' mac' (e.ssh_string s10 ++ rest)
              ≡ ok (record {
                kex = kex'.1;
                key = key'.1;
                cipher = cipher'.1;
                mac = Option.map (λ (m : Bool × Bytes). m.1) mac';
                ignore_guessed = false;
              })
        last kex' key' cipher' mac' = finish_kex_lem kex' key' cipher' mac' s10 rest h10

    -- The packet of `write_kex` is 17 bytes and ten lists.
    write_kex_lem :
        (cookie : Bytes) (p : Preferred)
        → write_kex cookie p []
          ≡ (Msg.kexinit ∷ cookie)
            ++ strings
                (join p.kex
                  ∷ join p.key
                  ∷ join p.cipher
                  ∷ join p.cipher
                  ∷ join p.mac
                  ∷ join p.mac
                  ∷ join p.compression
                  ∷ join p.compression
                  ∷ []
                  ∷ []
                  ∷ [])
                (0 ∷ 0 ∷ 0 ∷ 0 ∷ 0 ∷ [])
    unfolding write_kex
    write_kex_lem cookie p = simp (laws.name_list_lem, laws.empty_list_lem)

    -- The lists of one side: names without commas, and short enough on the wire.
    pub record IsPreferred (p : Preferred) : Type 0 where
      pub kex_names : All IsName p.kex
      pub key_names : All IsName p.key
      pub cipher_names : All IsName p.cipher
      pub mac_names : All IsName p.mac
      pub some_kex : p.kex ≢ []
      pub some_key : p.key ≢ []
      pub some_cipher : p.cipher ≢ []
      pub some_mac : p.mac ≢ []
      pub short :
          All Short (join p.kex ∷ join p.key ∷ join p.cipher ∷ join p.mac ∷ join p.compression ∷ [])

    agree :
        (cs ss : List Bytes)
        → All IsName cs
        → All IsName ss
        → cs ≢ []
        → ss ≢ []
        → select_server ss (join cs) ≡ select_client cs (join ss)
    agree [] ss hc hs nc ns = absurd (nc refl)
    agree (c ∷ cs) [] hc hs nc ns = absurd (ns refl)
    agree (c ∷ cs) (s ∷ ss) hc hs nc ns =
        let (left, right) = select-agree c s cs ss hc hs in left ∙ sym right

    read_written :
        (select : Select) (pref p : Preferred) (cookie : Bytes)
        → IsPreferred p
        → length cookie ≡ 16
        → read_kex select (write_kex cookie p []) pref
          ≡ chosen select pref (join p.kex) (join p.key) (join p.cipher) (join p.mac)
    read_written select pref p cookie hp h =
        ap (λ (t : Bytes). read_kex select t pref) (write_kex_lem cookie p)
        ∙ read_kex_lem select pref (Msg.kexinit ∷ cookie) _ _ _ _ _ _ _ _ _ _ _ (omega arith) (
          short.0,
          (
            short.1.0,
            (
              short.1.1.0,
              (
                short.1.1.0,
                (
                  short.1.1.1.0,
                  (
                    short.1.1.1.0,
                    (short.1.1.1.1.0, (short.1.1.1.1.0, (omega arith, (omega arith, tt)))),
                  ),
                ),
              ),
            ),
          ),
        )
      where
        open hp use {short}

    -- For any two preferences of non-empty lists of names without commas, joined below 2 ^ 24
    -- bytes, and any cookies of 16 bytes, what the server reads from the client's KEXINIT packet is
    -- what the client reads from the server's: the same algorithms or the same error.
    pub read_kex-agree :
        (client server : Preferred) (cookie cookie' : Bytes)
        → IsPreferred client
        → IsPreferred server
        → length cookie ≡ 16
        → length cookie' ≡ 16
        → read_kex select_server (write_kex cookie client []) server
          ≡ read_kex select_client (write_kex cookie' server []) client
    read_kex-agree client server cookie cookie' hc hs h h' =
        read_written select_server server client cookie hc h
        ∙ lists_agree
        ∙ sym (read_written select_client client server cookie' hs h')
      where
        lists_agree :
            chosen select_server server
              (join client.kex)
              (join client.key)
              (join client.cipher)
              (join client.mac)
            ≡ chosen select_client client
                (join server.kex)
                (join server.key)
                (join server.cipher)
                (join server.mac)
        lists_agree = rw (
          agree client.kex server.kex hc.kex_names hs.kex_names hc.some_kex hs.some_kex,
          agree client.key server.key hc.key_names hs.key_names hc.some_key hs.some_key,
          agree client.cipher server.cipher hc.cipher_names hs.cipher_names hc.some_cipher
              hs.some_cipher,
          agree client.mac server.mac hc.mac_names hs.mac_names hc.some_mac hs.some_mac,
        )
