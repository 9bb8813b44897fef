-- ===== src/Alg/SubValue.antt =====
-- The values of the sub-type enumerations of include/amvp/amvp.h: each starts at the value of a
-- cipher and goes on from there.
use libamvp.Common.{ℕ}
use libamvp.Alg.Sub.{
  Sub, aes, tdes, cmac, kmac, hmac, hash, dsa, rsa, ecdsa, drbg, kas, kdf, SubAes, SubTdes, SubCmac,
  SubKmac, SubHmac, SubHash, SubDsa, SubRsa, SubEcdsa, SubDrbg, SubKas, SubKdf, sub_aes_gcm,
  sub_aes_gcm_siv, sub_aes_ccm, sub_aes_ecb, sub_aes_cbc, sub_aes_cbc_cs1, sub_aes_cbc_cs2,
  sub_aes_cbc_cs3, sub_aes_cfb1, sub_aes_cfb8, sub_aes_cfb128, sub_aes_ofb, sub_aes_ctr,
  sub_aes_xts, sub_aes_xpn, sub_aes_kw, sub_aes_kwp, sub_aes_gmac, sub_tdes_ecb, sub_tdes_cbc,
  sub_tdes_cbci, sub_tdes_ofb, sub_tdes_ofbi, sub_tdes_cfb1, sub_tdes_cfb8, sub_tdes_cfb64,
  sub_tdes_cfbp1, sub_tdes_cfbp8, sub_tdes_cfbp64, sub_tdes_ctr, sub_tdes_kw, sub_cmac_aes,
  sub_cmac_tdes, sub_kmac_128, sub_kmac_256, sub_hmac_sha1, sub_hmac_sha2_224, sub_hmac_sha2_256,
  sub_hmac_sha2_384, sub_hmac_sha2_512, sub_hmac_sha2_512_224, sub_hmac_sha2_512_256,
  sub_hmac_sha3_224, sub_hmac_sha3_256, sub_hmac_sha3_384, sub_hmac_sha3_512, sub_hash_sha1,
  sub_hash_sha2_224, sub_hash_sha2_256, sub_hash_sha2_384, sub_hash_sha2_512, sub_hash_sha2_512_224,
  sub_hash_sha2_512_256, sub_hash_sha3_224, sub_hash_sha3_256, sub_hash_sha3_384, sub_hash_sha3_512,
  sub_hash_shake_128, sub_hash_shake_256, sub_dsa_keygen, sub_dsa_pqggen, sub_dsa_pqgver,
  sub_dsa_siggen, sub_dsa_sigver, sub_rsa_keygen, sub_rsa_siggen, sub_rsa_sigver, sub_rsa_decprim,
  sub_rsa_sigprim, sub_ecdsa_keygen, sub_ecdsa_keyver, sub_ecdsa_siggen, sub_ecdsa_sigver,
  sub_drbg_hash, sub_drbg_hmac, sub_drbg_ctr, sub_kas_ecc_cdh, sub_kas_ecc_comp, sub_kas_ecc_nocomp,
  sub_kas_ecc_ssc, sub_kas_ffc_comp, sub_kas_ffc_ssc, sub_kas_ffc_nocomp, sub_kas_ifc_ssc,
  sub_kts_ifc, sub_kda_onestep, sub_kda_twostep, sub_kda_hkdf, sub_safe_primes_keygen,
  sub_safe_primes_keyver, sub_kdf_snmp, sub_kdf_ssh, sub_kdf_srtp, sub_kdf_ikev2, sub_kdf_ikev1,
  sub_kdf_x942, sub_kdf_x963, sub_kdf_108, sub_kdf_pbkdf, sub_kdf_tls12, sub_kdf_tls13,
}

unfoldable pub aes_value : SubAes → ℕ
aes_value sub_aes_gcm = 1
aes_value sub_aes_gcm_siv = 2
aes_value sub_aes_ccm = 3
aes_value sub_aes_ecb = 4
aes_value sub_aes_cbc = 5
aes_value sub_aes_cbc_cs1 = 6
aes_value sub_aes_cbc_cs2 = 7
aes_value sub_aes_cbc_cs3 = 8
aes_value sub_aes_cfb1 = 9
aes_value sub_aes_cfb8 = 10
aes_value sub_aes_cfb128 = 11
aes_value sub_aes_ofb = 12
aes_value sub_aes_ctr = 13
aes_value sub_aes_xts = 14
aes_value sub_aes_xpn = 15
aes_value sub_aes_kw = 16
aes_value sub_aes_kwp = 17
aes_value sub_aes_gmac = 18

unfoldable pub tdes_value : SubTdes → ℕ
tdes_value sub_tdes_ecb = 19
tdes_value sub_tdes_cbc = 20
tdes_value sub_tdes_cbci = 21
tdes_value sub_tdes_ofb = 22
tdes_value sub_tdes_ofbi = 23
tdes_value sub_tdes_cfb1 = 24
tdes_value sub_tdes_cfb8 = 25
tdes_value sub_tdes_cfb64 = 26
tdes_value sub_tdes_cfbp1 = 27
tdes_value sub_tdes_cfbp8 = 28
tdes_value sub_tdes_cfbp64 = 29
tdes_value sub_tdes_ctr = 30
tdes_value sub_tdes_kw = 31

unfoldable pub cmac_value : SubCmac → ℕ
cmac_value sub_cmac_aes = 59
cmac_value sub_cmac_tdes = 60

unfoldable pub kmac_value : SubKmac → ℕ
kmac_value sub_kmac_128 = 61
kmac_value sub_kmac_256 = 62

unfoldable pub hmac_value : SubHmac → ℕ
hmac_value sub_hmac_sha1 = 48
hmac_value sub_hmac_sha2_224 = 49
hmac_value sub_hmac_sha2_256 = 50
hmac_value sub_hmac_sha2_384 = 51
hmac_value sub_hmac_sha2_512 = 52
hmac_value sub_hmac_sha2_512_224 = 53
hmac_value sub_hmac_sha2_512_256 = 54
hmac_value sub_hmac_sha3_224 = 55
hmac_value sub_hmac_sha3_256 = 56
hmac_value sub_hmac_sha3_384 = 57
hmac_value sub_hmac_sha3_512 = 58

unfoldable pub hash_value : SubHash → ℕ
hash_value sub_hash_sha1 = 32
hash_value sub_hash_sha2_224 = 33
hash_value sub_hash_sha2_256 = 34
hash_value sub_hash_sha2_384 = 35
hash_value sub_hash_sha2_512 = 36
hash_value sub_hash_sha2_512_224 = 37
hash_value sub_hash_sha2_512_256 = 38
hash_value sub_hash_sha3_224 = 39
hash_value sub_hash_sha3_256 = 40
hash_value sub_hash_sha3_384 = 41
hash_value sub_hash_sha3_512 = 42
hash_value sub_hash_shake_128 = 43
hash_value sub_hash_shake_256 = 44

unfoldable pub dsa_value : SubDsa → ℕ
dsa_value sub_dsa_keygen = 63
dsa_value sub_dsa_pqggen = 64
dsa_value sub_dsa_pqgver = 65
dsa_value sub_dsa_siggen = 66
dsa_value sub_dsa_sigver = 67

unfoldable pub rsa_value : SubRsa → ℕ
rsa_value sub_rsa_keygen = 68
rsa_value sub_rsa_siggen = 69
rsa_value sub_rsa_sigver = 70
rsa_value sub_rsa_decprim = 71
rsa_value sub_rsa_sigprim = 72

unfoldable pub ecdsa_value : SubEcdsa → ℕ
ecdsa_value sub_ecdsa_keygen = 73
ecdsa_value sub_ecdsa_keyver = 74
ecdsa_value sub_ecdsa_siggen = 75
ecdsa_value sub_ecdsa_sigver = 76

unfoldable pub drbg_value : SubDrbg → ℕ
drbg_value sub_drbg_hash = 45
drbg_value sub_drbg_hmac = 46
drbg_value sub_drbg_ctr = 47

unfoldable pub kas_value : SubKas → ℕ
kas_value sub_kas_ecc_cdh = 88
kas_value sub_kas_ecc_comp = 89
kas_value sub_kas_ecc_nocomp = 90
kas_value sub_kas_ecc_ssc = 91
kas_value sub_kas_ffc_comp = 92
kas_value sub_kas_ffc_ssc = 93
kas_value sub_kas_ffc_nocomp = 94
kas_value sub_kas_ifc_ssc = 95
kas_value sub_kts_ifc = 96
kas_value sub_kda_onestep = 97
kas_value sub_kda_twostep = 98
kas_value sub_kda_hkdf = 99
kas_value sub_safe_primes_keygen = 100
kas_value sub_safe_primes_keyver = 101

unfoldable pub kdf_value : SubKdf → ℕ
kdf_value sub_kdf_snmp = 77
kdf_value sub_kdf_ssh = 78
kdf_value sub_kdf_srtp = 79
kdf_value sub_kdf_ikev2 = 80
kdf_value sub_kdf_ikev1 = 81
kdf_value sub_kdf_x942 = 82
kdf_value sub_kdf_x963 = 83
kdf_value sub_kdf_108 = 84
kdf_value sub_kdf_pbkdf = 85
kdf_value sub_kdf_tls12 = 86
kdf_value sub_kdf_tls13 = 87

-- The union read through any of its members.
unfoldable pub sub_value : Sub → ℕ
unfolding aes_value tdes_value cmac_value kmac_value hmac_value hash_value dsa_value rsa_value
    ecdsa_value drbg_value kas_value kdf_value
sub_value (aes s) = aes_value s
sub_value (tdes s) = tdes_value s
sub_value (cmac s) = cmac_value s
sub_value (kmac s) = kmac_value s
sub_value (hmac s) = hmac_value s
sub_value (hash s) = hash_value s
sub_value (dsa s) = dsa_value s
sub_value (rsa s) = rsa_value s
sub_value (ecdsa s) = ecdsa_value s
sub_value (drbg s) = drbg_value s
sub_value (kas s) = kas_value s
sub_value (kdf s) = kdf_value s
