-- ===== src/Server/Probe.antt =====
-- What a public key that was probed allows.
use thrussh_fork.Base.{
  ◌-◌, ◌^◌, ◌<◌, ◌≡◌, refl, ap, ◌∙◌, true, some, [], ◌∷◌, ◌++◌, Bytes, codes, length, take,
  bytes_eq_refl, length-append, take-append, append_assoc, append-nil, ok, arith,
}
use thrussh_fork.Protocol.Msg
use thrussh_fork.Wire.{Encoding, IsEncoding}
use thrussh_fork.Auth.Methods.{AuthRequest, publickey_request}
use thrussh_fork.Session.State.{Encrypted, waiting_auth_request}
use thrussh_fork.Server.Login.{parsed, Keys, Handler, auth_request, grant_access}
use thrussh_fork.Server.Requests.{
  is_valid, finish_signed, auth_signed, auth_by_key, server_read_auth_request_pk,
  server_read_auth_request,
}

module _ ⦃e : Encoding⦄ where
  -- The packet of a client that logs in with a key, up to the signature: what it signs.
  abbrev pub key_packet : Bytes → Bytes → Bytes → Bytes → Bytes
  key_packet user algo key_bytes rest =
      Msg.userauth_request
      ∷ (e.ssh_string user
          ++ (e.ssh_string (codes "ssh-connection")
              ++ (e.ssh_string (codes "publickey")
                  ++ (1 ∷ (e.ssh_string algo ++ (e.ssh_string key_bytes ++ rest))))))

  pub key_packet_append :
      (user algo key_bytes rest : Bytes)
      → key_packet user algo key_bytes rest ≡ key_packet user algo key_bytes [] ++ rest
  key_packet_append user algo key_bytes rest = simp (append_assoc, append-nil)

  signed_part :
      (user algo key_bytes rest : Bytes)
      → take
          (length (key_packet user algo key_bytes rest) - length rest)
          (key_packet user algo key_bytes rest)
        ≡ key_packet user algo key_bytes []
  signed_part user algo key_bytes rest =
      ap (λ (p : Bytes). take (length p - length rest) p)
        (key_packet_append user algo key_bytes rest)
      ∙ take-append (length (key_packet user algo key_bytes [] ++ rest) - length rest)
          (key_packet user algo key_bytes []) rest
          (omega (arith, length-append (key_packet user algo key_bytes []) rest))

  module _ {Key H : Type 0} (laws : IsEncoding e) (keys : Keys Key) (handler : Handler Key H) where
    -- Once a key was probed for a user with success, a request of this user that is signed with any
    -- key that parses, and whose signature verifies, is let in, and the handler is not asked about
    -- that key: it need not be the key that was probed. For strings below 2 ^ 32 bytes.
    pub probed_key_unchecked :
        (enc : Encrypted) (auth : AuthRequest) (h : H)
        (user probed algo' algo key_bytes sig : Bytes) (pubkey : Key)
        → enc.state ≡ waiting_auth_request auth
        → auth.current ≡ some (publickey_request probed algo' true)
        → e.is_utf8 user ≡ true
        → keys.parse algo key_bytes ≡ parsed pubkey
        → keys.verify pubkey (e.ssh_string enc.session_id ++ key_packet user algo key_bytes []) sig
          ≡ true
        → length user < 2 ^ 32
        → length algo < 2 ^ 32
        → length key_bytes < 2 ^ 32
        → length sig < 2 ^ 32
        → length (e.ssh_string algo ++ (e.ssh_string sig ++ [])) < 2 ^ 32
        → server_read_auth_request keys handler enc h
            (key_packet user algo key_bytes
              (e.ssh_string (e.ssh_string algo ++ (e.ssh_string sig ++ [])) ++ []))
            user
          ≡ ok (record { enc = grant_access enc; auth_user = user; handler = h })
    unfolding server_read_auth_request server_read_auth_request_pk auth_request auth_by_key
        auth_signed is_valid finish_signed
    probed_key_unchecked enc auth h user probed algo' algo key_bytes sig pubkey waits current utf8
          key verified hu ha hk hs hb =
        rw (r_user _, utf8)
          (rw (r_service _) (
            rw (r_method _) (
              rw (waits, laws.read_byte-cons _ _)
                (rw (r_algo _) (
                  rw (r_key _) (
                    rw key (
                      rw (r_blob _) (
                        rw (r_algo _) (
                          rw
                            (
                              r_sig _,
                              current,
                              bytes_eq_refl user,
                              signed_part user algo key_bytes _,
                              verified,
                            )
                            refl)))))))))
      where
        r_user : (rest : Bytes) → e.read_string (e.ssh_string user ++ rest) ≡ some (user, rest)
        r_user rest = laws.read_string-ssh_string user rest hu

        r_service :
            (rest : Bytes)
            → e.read_string (e.ssh_string (codes "ssh-connection") ++ rest)
              ≡ some (codes "ssh-connection", rest)
        r_service rest = laws.read_string-ssh_string (codes "ssh-connection") rest (omega arith)

        r_method :
            (rest : Bytes)
            → e.read_string (e.ssh_string (codes "publickey") ++ rest)
              ≡ some (codes "publickey", rest)
        r_method rest = laws.read_string-ssh_string (codes "publickey") rest (omega arith)

        r_algo : (rest : Bytes) → e.read_string (e.ssh_string algo ++ rest) ≡ some (algo, rest)
        r_algo rest = laws.read_string-ssh_string algo rest ha

        r_key :
            (rest : Bytes) → e.read_string (e.ssh_string key_bytes ++ rest) ≡ some (key_bytes, rest)
        r_key rest = laws.read_string-ssh_string key_bytes rest hk

        r_sig : (rest : Bytes) → e.read_string (e.ssh_string sig ++ rest) ≡ some (sig, rest)
        r_sig rest = laws.read_string-ssh_string sig rest hs

        r_blob :
            (rest : Bytes)
            → e.read_string (e.ssh_string (e.ssh_string algo ++ (e.ssh_string sig ++ [])) ++ rest)
              ≡ some (e.ssh_string algo ++ (e.ssh_string sig ++ []), rest)
        r_blob rest =
            laws.read_string-ssh_string (e.ssh_string algo ++ (e.ssh_string sig ++ [])) rest hb
