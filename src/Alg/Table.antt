-- ===== src/Alg/Table.antt =====
-- The algorithm table alg_tbl of src/amvp.c, family by family.
use libamvp.Common.{List, [], ◌∷◌, ◌++◌, codes}
use libamvp.Alg.Cipher.{
  aes_gcm, aes_gcm_siv, aes_ccm, aes_ecb, aes_cbc, aes_cbc_cs1, aes_cbc_cs2, aes_cbc_cs3, aes_cfb1,
  aes_cfb8, aes_cfb128, aes_ofb, aes_ctr, aes_xts, aes_kw, aes_kwp, aes_gmac, aes_xpn, tdes_ecb,
  tdes_cbc, tdes_cbci, tdes_ofb, tdes_ofbi, tdes_cfb1, tdes_cfb8, tdes_cfb64, tdes_cfbp1,
  tdes_cfbp8, tdes_cfbp64, tdes_ctr, tdes_kw, hash_sha1, hash_sha224, hash_sha256, hash_sha384,
  hash_sha512, hash_sha512_224, hash_sha512_256, hash_sha3_224, hash_sha3_256, hash_sha3_384,
  hash_sha3_512, hash_shake_128, hash_shake_256, hashdrbg, hmacdrbg, ctrdrbg, hmac_sha1,
  hmac_sha2_224, hmac_sha2_256, hmac_sha2_384, hmac_sha2_512, hmac_sha2_512_224, hmac_sha2_512_256,
  hmac_sha3_224, hmac_sha3_256, hmac_sha3_384, hmac_sha3_512, cmac_aes, cmac_tdes, kmac_128,
  kmac_256, dsa_keygen, dsa_pqggen, dsa_pqgver, dsa_siggen, dsa_sigver, rsa_keygen, rsa_siggen,
  rsa_sigver, rsa_decprim, rsa_sigprim, ecdsa_keygen, ecdsa_keyver, ecdsa_siggen, ecdsa_sigver,
  kdf135_snmp, kdf135_ssh, kdf135_srtp, kdf135_ikev2, kdf135_ikev1, kdf135_x942, kdf135_x963,
  kdf108, pbkdf, kdf_tls12, kdf_tls13, kas_ecc_cdh, kas_ecc_comp, kas_ecc_nocomp, kas_ecc_ssc,
  kas_ffc_comp, kas_ffc_nocomp, kas_ffc_ssc, kas_ifc_ssc, kda_onestep, kda_twostep, kda_hkdf,
  kts_ifc, safe_primes_keygen, safe_primes_keyver,
}
use libamvp.Alg.Sub.{
  aes, tdes, cmac, kmac, hmac, hash, dsa, rsa, ecdsa, drbg, kas, kdf, sub_aes_gcm, sub_aes_gcm_siv,
  sub_aes_ccm, sub_aes_ecb, sub_aes_cbc, sub_aes_cbc_cs1, sub_aes_cbc_cs2, sub_aes_cbc_cs3,
  sub_aes_cfb1, sub_aes_cfb8, sub_aes_cfb128, sub_aes_ofb, sub_aes_ctr, sub_aes_xts, sub_aes_xpn,
  sub_aes_kw, sub_aes_kwp, sub_aes_gmac, sub_tdes_ecb, sub_tdes_cbc, sub_tdes_cbci, sub_tdes_ofb,
  sub_tdes_ofbi, sub_tdes_cfb1, sub_tdes_cfb8, sub_tdes_cfb64, sub_tdes_cfbp1, sub_tdes_cfbp8,
  sub_tdes_cfbp64, sub_tdes_ctr, sub_tdes_kw, sub_cmac_aes, sub_cmac_tdes, sub_kmac_128,
  sub_kmac_256, sub_hmac_sha1, sub_hmac_sha2_224, sub_hmac_sha2_256, sub_hmac_sha2_384,
  sub_hmac_sha2_512, sub_hmac_sha2_512_224, sub_hmac_sha2_512_256, sub_hmac_sha3_224,
  sub_hmac_sha3_256, sub_hmac_sha3_384, sub_hmac_sha3_512, sub_hash_sha1, sub_hash_sha2_224,
  sub_hash_sha2_256, sub_hash_sha2_384, sub_hash_sha2_512, sub_hash_sha2_512_224,
  sub_hash_sha2_512_256, sub_hash_sha3_224, sub_hash_sha3_256, sub_hash_sha3_384, sub_hash_sha3_512,
  sub_hash_shake_128, sub_hash_shake_256, sub_dsa_keygen, sub_dsa_pqggen, sub_dsa_pqgver,
  sub_dsa_siggen, sub_dsa_sigver, sub_rsa_keygen, sub_rsa_siggen, sub_rsa_sigver, sub_rsa_decprim,
  sub_rsa_sigprim, sub_ecdsa_keygen, sub_ecdsa_keyver, sub_ecdsa_siggen, sub_ecdsa_sigver,
  sub_drbg_hash, sub_drbg_hmac, sub_drbg_ctr, sub_kas_ecc_cdh, sub_kas_ecc_comp, sub_kas_ecc_nocomp,
  sub_kas_ecc_ssc, sub_kas_ffc_comp, sub_kas_ffc_ssc, sub_kas_ffc_nocomp, sub_kas_ifc_ssc,
  sub_kts_ifc, sub_kda_onestep, sub_kda_twostep, sub_kda_hkdf, sub_safe_primes_keygen,
  sub_safe_primes_keyver, sub_kdf_snmp, sub_kdf_ssh, sub_kdf_srtp, sub_kdf_ikev2, sub_kdf_ikev1,
  sub_kdf_x942, sub_kdf_x963, sub_kdf_108, sub_kdf_pbkdf, sub_kdf_tls12, sub_kdf_tls13,
}
use libamvp.Alg.Entry.{
  AlgHandler, plain, moded, aes_kat_handler, des_kat_handler, hash_kat_handler, drbg_kat_handler,
  hmac_kat_handler, cmac_kat_handler, kmac_kat_handler, dsa_kat_handler, rsa_keygen_kat_handler,
  rsa_siggen_kat_handler, rsa_sigver_kat_handler, rsa_decprim_kat_handler, rsa_sigprim_kat_handler,
  ecdsa_keygen_kat_handler, ecdsa_keyver_kat_handler, ecdsa_siggen_kat_handler,
  ecdsa_sigver_kat_handler, kdf135_snmp_kat_handler, kdf135_ssh_kat_handler,
  kdf135_srtp_kat_handler, kdf135_ikev2_kat_handler, kdf135_ikev1_kat_handler,
  kdf135_x942_kat_handler, kdf135_x963_kat_handler, kdf108_kat_handler, pbkdf_kat_handler,
  kdf_tls12_kat_handler, kdf_tls13_kat_handler, kas_ecc_kat_handler, kas_ecc_ssc_kat_handler,
  kas_ffc_kat_handler, kas_ffc_ssc_kat_handler, kas_ifc_ssc_kat_handler, kda_onestep_kat_handler,
  kda_twostep_kat_handler, kda_hkdf_kat_handler, kts_ifc_kat_handler, safe_primes_kat_handler,
  rev_default, rev_2_0, rev_fips186_4, rev_sp800_56ar3, rev_sp800_56br2, rev_sp800_56cr2,
  rev_rfc8446, rev_rfc7627,
}

unfoldable aes_entries : List AlgHandler
aes_entries =
    plain aes_gcm aes_kat_handler (codes "AMVP-AES-GCM") rev_default (aes sub_aes_gcm)
    ∷ plain aes_gcm_siv aes_kat_handler (codes "AMVP-AES-GCM-SIV") rev_default (aes sub_aes_gcm_siv)
    ∷ plain aes_ccm aes_kat_handler (codes "AMVP-AES-CCM") rev_default (aes sub_aes_ccm)
    ∷ plain aes_ecb aes_kat_handler (codes "AMVP-AES-ECB") rev_default (aes sub_aes_ecb)
    ∷ plain aes_cbc aes_kat_handler (codes "AMVP-AES-CBC") rev_default (aes sub_aes_cbc)
    ∷ plain aes_cbc_cs1 aes_kat_handler (codes "AMVP-AES-CBC-CS1") rev_default (aes sub_aes_cbc_cs1)
    ∷ plain aes_cbc_cs2 aes_kat_handler (codes "AMVP-AES-CBC-CS2") rev_default (aes sub_aes_cbc_cs2)
    ∷ plain aes_cbc_cs3 aes_kat_handler (codes "AMVP-AES-CBC-CS3") rev_default (aes sub_aes_cbc_cs3)
    ∷ plain aes_cfb1 aes_kat_handler (codes "AMVP-AES-CFB1") rev_default (aes sub_aes_cfb1)
    ∷ plain aes_cfb8 aes_kat_handler (codes "AMVP-AES-CFB8") rev_default (aes sub_aes_cfb8)
    ∷ plain aes_cfb128 aes_kat_handler (codes "AMVP-AES-CFB128") rev_default (aes sub_aes_cfb128)
    ∷ plain aes_ofb aes_kat_handler (codes "AMVP-AES-OFB") rev_default (aes sub_aes_ofb)
    ∷ plain aes_ctr aes_kat_handler (codes "AMVP-AES-CTR") rev_default (aes sub_aes_ctr)
    ∷ plain aes_xts aes_kat_handler (codes "AMVP-AES-XTS") rev_2_0 (aes sub_aes_xts)
    ∷ plain aes_kw aes_kat_handler (codes "AMVP-AES-KW") rev_default (aes sub_aes_kw)
    ∷ plain aes_kwp aes_kat_handler (codes "AMVP-AES-KWP") rev_default (aes sub_aes_kwp)
    ∷ plain aes_gmac aes_kat_handler (codes "AMVP-AES-GMAC") rev_default (aes sub_aes_gmac)
    ∷ plain aes_xpn aes_kat_handler (codes "AMVP-AES-XPN") rev_default (aes sub_aes_xpn)
    ∷ []

unfoldable tdes_entries : List AlgHandler
tdes_entries =
    plain tdes_ecb des_kat_handler (codes "AMVP-TDES-ECB") rev_default (tdes sub_tdes_ecb)
    ∷ plain tdes_cbc des_kat_handler (codes "AMVP-TDES-CBC") rev_default (tdes sub_tdes_cbc)
    ∷ plain tdes_cbci des_kat_handler (codes "AMVP-TDES-CBCI") rev_default (tdes sub_tdes_cbci)
    ∷ plain tdes_ofb des_kat_handler (codes "AMVP-TDES-OFB") rev_default (tdes sub_tdes_ofb)
    ∷ plain tdes_ofbi des_kat_handler (codes "AMVP-TDES-OFBI") rev_default (tdes sub_tdes_ofbi)
    ∷ plain tdes_cfb1 des_kat_handler (codes "AMVP-TDES-CFB1") rev_default (tdes sub_tdes_cfb1)
    ∷ plain tdes_cfb8 des_kat_handler (codes "AMVP-TDES-CFB8") rev_default (tdes sub_tdes_cfb8)
    ∷ plain tdes_cfb64 des_kat_handler (codes "AMVP-TDES-CFB64") rev_default (tdes sub_tdes_cfb64)
    ∷ plain tdes_cfbp1 des_kat_handler (codes "AMVP-TDES-CFBP1") rev_default (tdes sub_tdes_cfbp1)
    ∷ plain tdes_cfbp8 des_kat_handler (codes "AMVP-TDES-CFBP8") rev_default (tdes sub_tdes_cfbp8)
    ∷ plain tdes_cfbp64 des_kat_handler (codes "AMVP-TDES-CFBP64") rev_default
        (tdes sub_tdes_cfbp64)
    ∷ plain tdes_ctr des_kat_handler (codes "AMVP-TDES-CTR") rev_default (tdes sub_tdes_ctr)
    ∷ plain tdes_kw des_kat_handler (codes "AMVP-TDES-KW") rev_default (tdes sub_tdes_kw)
    ∷ []

unfoldable hash_entries : List AlgHandler
hash_entries =
    plain hash_sha1 hash_kat_handler (codes "SHA-1") rev_default (hash sub_hash_sha1)
    ∷ plain hash_sha224 hash_kat_handler (codes "SHA2-224") rev_default (hash sub_hash_sha2_224)
    ∷ plain hash_sha256 hash_kat_handler (codes "SHA2-256") rev_default (hash sub_hash_sha2_256)
    ∷ plain hash_sha384 hash_kat_handler (codes "SHA2-384") rev_default (hash sub_hash_sha2_384)
    ∷ plain hash_sha512 hash_kat_handler (codes "SHA2-512") rev_default (hash sub_hash_sha2_512)
    ∷ plain hash_sha512_224 hash_kat_handler (codes "SHA2-512/224") rev_default
        (hash sub_hash_sha2_512_224)
    ∷ plain hash_sha512_256 hash_kat_handler (codes "SHA2-512/256") rev_default
        (hash sub_hash_sha2_512_256)
    ∷ plain hash_sha3_224 hash_kat_handler (codes "SHA3-224") rev_2_0 (hash sub_hash_sha3_224)
    ∷ plain hash_sha3_256 hash_kat_handler (codes "SHA3-256") rev_2_0 (hash sub_hash_sha3_256)
    ∷ plain hash_sha3_384 hash_kat_handler (codes "SHA3-384") rev_2_0 (hash sub_hash_sha3_384)
    ∷ plain hash_sha3_512 hash_kat_handler (codes "SHA3-512") rev_2_0 (hash sub_hash_sha3_512)
    ∷ plain hash_shake_128 hash_kat_handler (codes "SHAKE-128") rev_default
        (hash sub_hash_shake_128)
    ∷ plain hash_shake_256 hash_kat_handler (codes "SHAKE-256") rev_default
        (hash sub_hash_shake_256)
    ∷ []

unfoldable drbg_entries : List AlgHandler
drbg_entries =
    plain hashdrbg drbg_kat_handler (codes "hashDRBG") rev_default (drbg sub_drbg_hash)
    ∷ plain hmacdrbg drbg_kat_handler (codes "hmacDRBG") rev_default (drbg sub_drbg_hmac)
    ∷ plain ctrdrbg drbg_kat_handler (codes "ctrDRBG") rev_default (drbg sub_drbg_ctr)
    ∷ []

unfoldable hmac_entries : List AlgHandler
hmac_entries =
    plain hmac_sha1 hmac_kat_handler (codes "HMAC-SHA-1") rev_default (hmac sub_hmac_sha1)
    ∷ plain hmac_sha2_224 hmac_kat_handler (codes "HMAC-SHA2-224") rev_default
        (hmac sub_hmac_sha2_224)
    ∷ plain hmac_sha2_256 hmac_kat_handler (codes "HMAC-SHA2-256") rev_default
        (hmac sub_hmac_sha2_256)
    ∷ plain hmac_sha2_384 hmac_kat_handler (codes "HMAC-SHA2-384") rev_default
        (hmac sub_hmac_sha2_384)
    ∷ plain hmac_sha2_512 hmac_kat_handler (codes "HMAC-SHA2-512") rev_default
        (hmac sub_hmac_sha2_512)
    ∷ plain hmac_sha2_512_224 hmac_kat_handler (codes "HMAC-SHA2-512/224") rev_default
        (hmac sub_hmac_sha2_512_224)
    ∷ plain hmac_sha2_512_256 hmac_kat_handler (codes "HMAC-SHA2-512/256") rev_default
        (hmac sub_hmac_sha2_512_256)
    ∷ plain hmac_sha3_224 hmac_kat_handler (codes "HMAC-SHA3-224") rev_default
        (hmac sub_hmac_sha3_224)
    ∷ plain hmac_sha3_256 hmac_kat_handler (codes "HMAC-SHA3-256") rev_default
        (hmac sub_hmac_sha3_256)
    ∷ plain hmac_sha3_384 hmac_kat_handler (codes "HMAC-SHA3-384") rev_default
        (hmac sub_hmac_sha3_384)
    ∷ plain hmac_sha3_512 hmac_kat_handler (codes "HMAC-SHA3-512") rev_default
        (hmac sub_hmac_sha3_512)
    ∷ []

unfoldable cmac_entries : List AlgHandler
cmac_entries =
    plain cmac_aes cmac_kat_handler (codes "CMAC-AES") rev_default (cmac sub_cmac_aes)
    ∷ plain cmac_tdes cmac_kat_handler (codes "CMAC-TDES") rev_default (cmac sub_cmac_tdes)
    ∷ []

unfoldable kmac_entries : List AlgHandler
kmac_entries =
    plain kmac_128 kmac_kat_handler (codes "KMAC-128") rev_default (kmac sub_kmac_128)
    ∷ plain kmac_256 kmac_kat_handler (codes "KMAC-256") rev_default (kmac sub_kmac_256)
    ∷ []

unfoldable dsa_entries : List AlgHandler
dsa_entries =
    moded dsa_keygen dsa_kat_handler (codes "DSA") (codes "keyGen") rev_default (dsa sub_dsa_keygen)
    ∷ moded dsa_pqggen dsa_kat_handler (codes "DSA") (codes "pqgGen") rev_default
        (dsa sub_dsa_pqggen)
    ∷ moded dsa_pqgver dsa_kat_handler (codes "DSA") (codes "pqgVer") rev_default
        (dsa sub_dsa_pqgver)
    ∷ moded dsa_siggen dsa_kat_handler (codes "DSA") (codes "sigGen") rev_default
        (dsa sub_dsa_siggen)
    ∷ moded dsa_sigver dsa_kat_handler (codes "DSA") (codes "sigVer") rev_default
        (dsa sub_dsa_sigver)
    ∷ []

unfoldable rsa_entries : List AlgHandler
rsa_entries =
    moded rsa_keygen rsa_keygen_kat_handler (codes "RSA") (codes "keyGen") rev_fips186_4
      (rsa sub_rsa_keygen)
    ∷ moded rsa_siggen rsa_siggen_kat_handler (codes "RSA") (codes "sigGen") rev_fips186_4
        (rsa sub_rsa_siggen)
    ∷ moded rsa_sigver rsa_sigver_kat_handler (codes "RSA") (codes "sigVer") rev_fips186_4
        (rsa sub_rsa_sigver)
    ∷ moded rsa_decprim rsa_decprim_kat_handler (codes "RSA") (codes "decryptionPrimitive")
        rev_default (rsa sub_rsa_decprim)
    ∷ moded rsa_sigprim rsa_sigprim_kat_handler (codes "RSA") (codes "signaturePrimitive")
        rev_default (rsa sub_rsa_sigprim)
    ∷ []

unfoldable ecdsa_entries : List AlgHandler
ecdsa_entries =
    moded ecdsa_keygen ecdsa_keygen_kat_handler (codes "ECDSA") (codes "keyGen") rev_default
      (ecdsa sub_ecdsa_keygen)
    ∷ moded ecdsa_keyver ecdsa_keyver_kat_handler (codes "ECDSA") (codes "keyVer") rev_default
        (ecdsa sub_ecdsa_keyver)
    ∷ moded ecdsa_siggen ecdsa_siggen_kat_handler (codes "ECDSA") (codes "sigGen") rev_default
        (ecdsa sub_ecdsa_siggen)
    ∷ moded ecdsa_sigver ecdsa_sigver_kat_handler (codes "ECDSA") (codes "sigVer") rev_default
        (ecdsa sub_ecdsa_sigver)
    ∷ []

unfoldable kdf_entries : List AlgHandler
kdf_entries =
    moded kdf135_snmp kdf135_snmp_kat_handler (codes "kdf-components") (codes "snmp") rev_default
      (kdf sub_kdf_snmp)
    ∷ moded kdf135_ssh kdf135_ssh_kat_handler (codes "kdf-components") (codes "ssh") rev_default
        (kdf sub_kdf_ssh)
    ∷ moded kdf135_srtp kdf135_srtp_kat_handler (codes "kdf-components") (codes "srtp") rev_default
        (kdf sub_kdf_srtp)
    ∷ moded kdf135_ikev2 kdf135_ikev2_kat_handler (codes "kdf-components") (codes "ikev2")
        rev_default (kdf sub_kdf_ikev2)
    ∷ moded kdf135_ikev1 kdf135_ikev1_kat_handler (codes "kdf-components") (codes "ikev1")
        rev_default (kdf sub_kdf_ikev1)
    ∷ moded kdf135_x942 kdf135_x942_kat_handler (codes "kdf-components") (codes "ansix9.42")
        rev_default (kdf sub_kdf_x942)
    ∷ moded kdf135_x963 kdf135_x963_kat_handler (codes "kdf-components") (codes "ansix9.63")
        rev_default (kdf sub_kdf_x963)
    ∷ plain kdf108 kdf108_kat_handler (codes "KDF") rev_default (kdf sub_kdf_108)
    ∷ plain pbkdf pbkdf_kat_handler (codes "PBKDF") rev_default (kdf sub_kdf_pbkdf)
    ∷ moded kdf_tls12 kdf_tls12_kat_handler (codes "TLS-v1.2") (codes "KDF") rev_rfc7627
        (kdf sub_kdf_tls12)
    ∷ moded kdf_tls13 kdf_tls13_kat_handler (codes "TLS-v1.3") (codes "KDF") rev_rfc8446
        (kdf sub_kdf_tls13)
    ∷ []

unfoldable kas_entries : List AlgHandler
kas_entries =
    moded kas_ecc_cdh kas_ecc_kat_handler (codes "KAS-ECC") (codes "CDH-Component") rev_default
      (kas sub_kas_ecc_cdh)
    ∷ moded kas_ecc_comp kas_ecc_kat_handler (codes "KAS-ECC") (codes "Component") rev_default
        (kas sub_kas_ecc_comp)
    ∷ moded kas_ecc_nocomp kas_ecc_kat_handler (codes "KAS-ECC") (codes "") rev_default
        (kas sub_kas_ecc_nocomp)
    ∷ moded kas_ecc_ssc kas_ecc_ssc_kat_handler (codes "KAS-ECC-SSC") (codes "Component")
        rev_sp800_56ar3 (kas sub_kas_ecc_ssc)
    ∷ moded kas_ffc_comp kas_ffc_kat_handler (codes "KAS-FFC") (codes "Component") rev_default
        (kas sub_kas_ffc_comp)
    ∷ moded kas_ffc_nocomp kas_ffc_kat_handler (codes "KAS-FFC") (codes "") rev_default
        (kas sub_kas_ffc_nocomp)
    ∷ moded kas_ffc_ssc kas_ffc_ssc_kat_handler (codes "KAS-FFC-SSC") (codes "Component")
        rev_sp800_56ar3 (kas sub_kas_ffc_ssc)
    ∷ moded kas_ifc_ssc kas_ifc_ssc_kat_handler (codes "KAS-IFC-SSC") (codes "") rev_sp800_56br2
        (kas sub_kas_ifc_ssc)
    ∷ moded kda_onestep kda_onestep_kat_handler (codes "KDA") (codes "OneStep") rev_sp800_56cr2
        (kas sub_kda_onestep)
    ∷ moded kda_twostep kda_twostep_kat_handler (codes "KDA") (codes "TwoStep") rev_sp800_56cr2
        (kas sub_kda_twostep)
    ∷ moded kda_hkdf kda_hkdf_kat_handler (codes "KDA") (codes "HKDF") rev_sp800_56cr2
        (kas sub_kda_hkdf)
    ∷ moded kts_ifc kts_ifc_kat_handler (codes "KTS-IFC") (codes "") rev_sp800_56br2
        (kas sub_kts_ifc)
    ∷ moded safe_primes_keygen safe_primes_kat_handler (codes "safePrimes") (codes "keyGen")
        rev_default (kas sub_safe_primes_keygen)
    ∷ moded safe_primes_keyver safe_primes_kat_handler (codes "safePrimes") (codes "keyVer")
        rev_default (kas sub_safe_primes_keyver)
    ∷ []

unfoldable pub alg_tbl : List AlgHandler
unfolding aes_entries tdes_entries hash_entries drbg_entries hmac_entries cmac_entries kmac_entries
    dsa_entries rsa_entries ecdsa_entries kdf_entries kas_entries
alg_tbl =
    aes_entries ++ tdes_entries ++ hash_entries ++ drbg_entries ++ hmac_entries ++ cmac_entries
    ++ kmac_entries ++ dsa_entries ++ rsa_entries ++ ecdsa_entries ++ kdf_entries ++ kas_entries
