-- ===== src/Alg/Cipher.antt =====
-- The enumeration AMVP_CIPHER of include/amvp/amvp.h with its values.
use libamvp.Common.{ℕ}

pub data Cipher : Type 0 where
  cipher_start aes_gcm aes_gcm_siv aes_ccm aes_ecb aes_cbc aes_cbc_cs1 aes_cbc_cs2 aes_cbc_cs3
        aes_cfb1 aes_cfb8 aes_cfb128 aes_ofb aes_ctr aes_xts aes_kw aes_kwp aes_gmac aes_xpn
        tdes_ecb tdes_cbc tdes_cbci tdes_ofb tdes_ofbi tdes_cfb1 tdes_cfb8 tdes_cfb64 tdes_cfbp1
        tdes_cfbp8 tdes_cfbp64 tdes_ctr tdes_kw hash_sha1 hash_sha224 hash_sha256 hash_sha384
        hash_sha512 hash_sha512_224 hash_sha512_256 hash_sha3_224 hash_sha3_256 hash_sha3_384
        hash_sha3_512 hash_shake_128 hash_shake_256 hashdrbg hmacdrbg ctrdrbg hmac_sha1
        hmac_sha2_224 hmac_sha2_256 hmac_sha2_384 hmac_sha2_512 hmac_sha2_512_224 hmac_sha2_512_256
        hmac_sha3_224 hmac_sha3_256 hmac_sha3_384 hmac_sha3_512 cmac_aes cmac_tdes kmac_128 kmac_256
        dsa_keygen dsa_pqggen dsa_pqgver dsa_siggen dsa_sigver rsa_keygen rsa_siggen rsa_sigver
        rsa_decprim rsa_sigprim ecdsa_keygen ecdsa_keyver ecdsa_siggen ecdsa_sigver kdf135_snmp
        kdf135_ssh kdf135_srtp kdf135_ikev2 kdf135_ikev1 kdf135_x942 kdf135_x963 kdf108 pbkdf
        kdf_tls12 kdf_tls13 kas_ecc_cdh kas_ecc_comp kas_ecc_nocomp kas_ecc_ssc kas_ffc_comp
        kas_ffc_nocomp kas_ffc_ssc kas_ifc_ssc kda_onestep kda_twostep kda_hkdf kts_ifc
        safe_primes_keygen safe_primes_keyver cipher_end :
      Cipher

unfoldable pub cipher_value : Cipher → ℕ
cipher_value cipher_start = 0
cipher_value aes_gcm = 1
cipher_value aes_gcm_siv = 2
cipher_value aes_ccm = 3
cipher_value aes_ecb = 4
cipher_value aes_cbc = 5
cipher_value aes_cbc_cs1 = 6
cipher_value aes_cbc_cs2 = 7
cipher_value aes_cbc_cs3 = 8
cipher_value aes_cfb1 = 9
cipher_value aes_cfb8 = 10
cipher_value aes_cfb128 = 11
cipher_value aes_ofb = 12
cipher_value aes_ctr = 13
cipher_value aes_xts = 14
cipher_value aes_kw = 15
cipher_value aes_kwp = 16
cipher_value aes_gmac = 17
cipher_value aes_xpn = 18
cipher_value tdes_ecb = 19
cipher_value tdes_cbc = 20
cipher_value tdes_cbci = 21
cipher_value tdes_ofb = 22
cipher_value tdes_ofbi = 23
cipher_value tdes_cfb1 = 24
cipher_value tdes_cfb8 = 25
cipher_value tdes_cfb64 = 26
cipher_value tdes_cfbp1 = 27
cipher_value tdes_cfbp8 = 28
cipher_value tdes_cfbp64 = 29
cipher_value tdes_ctr = 30
cipher_value tdes_kw = 31
cipher_value hash_sha1 = 32
cipher_value hash_sha224 = 33
cipher_value hash_sha256 = 34
cipher_value hash_sha384 = 35
cipher_value hash_sha512 = 36
cipher_value hash_sha512_224 = 37
cipher_value hash_sha512_256 = 38
cipher_value hash_sha3_224 = 39
cipher_value hash_sha3_256 = 40
cipher_value hash_sha3_384 = 41
cipher_value hash_sha3_512 = 42
cipher_value hash_shake_128 = 43
cipher_value hash_shake_256 = 44
cipher_value hashdrbg = 45
cipher_value hmacdrbg = 46
cipher_value ctrdrbg = 47
cipher_value hmac_sha1 = 48
cipher_value hmac_sha2_224 = 49
cipher_value hmac_sha2_256 = 50
cipher_value hmac_sha2_384 = 51
cipher_value hmac_sha2_512 = 52
cipher_value hmac_sha2_512_224 = 53
cipher_value hmac_sha2_512_256 = 54
cipher_value hmac_sha3_224 = 55
cipher_value hmac_sha3_256 = 56
cipher_value hmac_sha3_384 = 57
cipher_value hmac_sha3_512 = 58
cipher_value cmac_aes = 59
cipher_value cmac_tdes = 60
cipher_value kmac_128 = 61
cipher_value kmac_256 = 62
cipher_value dsa_keygen = 63
cipher_value dsa_pqggen = 64
cipher_value dsa_pqgver = 65
cipher_value dsa_siggen = 66
cipher_value dsa_sigver = 67
cipher_value rsa_keygen = 68
cipher_value rsa_siggen = 69
cipher_value rsa_sigver = 70
cipher_value rsa_decprim = 71
cipher_value rsa_sigprim = 72
cipher_value ecdsa_keygen = 73
cipher_value ecdsa_keyver = 74
cipher_value ecdsa_siggen = 75
cipher_value ecdsa_sigver = 76
cipher_value kdf135_snmp = 77
cipher_value kdf135_ssh = 78
cipher_value kdf135_srtp = 79
cipher_value kdf135_ikev2 = 80
cipher_value kdf135_ikev1 = 81
cipher_value kdf135_x942 = 82
cipher_value kdf135_x963 = 83
cipher_value kdf108 = 84
cipher_value pbkdf = 85
cipher_value kdf_tls12 = 86
cipher_value kdf_tls13 = 87
cipher_value kas_ecc_cdh = 88
cipher_value kas_ecc_comp = 89
cipher_value kas_ecc_nocomp = 90
cipher_value kas_ecc_ssc = 91
cipher_value kas_ffc_comp = 92
cipher_value kas_ffc_nocomp = 93
cipher_value kas_ffc_ssc = 94
cipher_value kas_ifc_ssc = 95
cipher_value kda_onestep = 96
cipher_value kda_twostep = 97
cipher_value kda_hkdf = 98
cipher_value kts_ifc = 99
cipher_value safe_primes_keygen = 100
cipher_value safe_primes_keyver = 101
cipher_value cipher_end = 102
