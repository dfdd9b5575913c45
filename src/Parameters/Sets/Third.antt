-- ===== src/Parameters/Sets/Third.antt =====
-- Rows of the table of rfc6330_alg/parameters.c, from K' = 2701 to K' = 8030.
use tv_rq.Prelude.{List, [], ◌∷◌}
use tv_rq.Parameters.Row.{BaseParamSet, row}

unfoldable pub third_sets : List BaseParamSet
third_sets =
    row 2701 653 101 11 2731
    ∷ row 2737 669 101 11 2767
    ∷ row 2772 431 101 11 2801
    ∷ row 2802 793 103 11 2833
    ∷ row 2831 588 103 11 2861
    ∷ row 2875 777 107 11 2909
    ∷ row 2906 939 107 11 2939
    ∷ row 2938 864 107 11 2971
    ∷ row 2979 627 107 11 3011
    ∷ row 3015 265 109 11 3049
    ∷ row 3056 976 109 11 3089
    ∷ row 3101 988 113 11 3137
    ∷ row 3151 507 113 11 3187
    ∷ row 3186 640 113 11 3221
    ∷ row 3224 15 113 11 3259
    ∷ row 3265 667 113 11 3299
    ∷ row 3299 24 127 11 3347
    ∷ row 3344 877 127 11 3391
    ∷ row 3387 240 127 11 3433
    ∷ row 3423 720 127 11 3469
    ∷ row 3466 93 127 11 3511
    ∷ row 3502 919 127 11 3547
    ∷ row 3539 635 127 11 3583
    ∷ row 3579 174 127 11 3623
    ∷ row 3616 647 127 11 3659
    ∷ row 3658 820 127 11 3701
    ∷ row 3697 56 127 11 3739
    ∷ row 3751 485 127 11 3793
    ∷ row 3792 210 127 11 3833
    ∷ row 3840 124 127 11 3881
    ∷ row 3883 546 127 11 3923
    ∷ row 3924 954 131 11 3967
    ∷ row 3970 262 131 11 4013
    ∷ row 4015 927 131 11 4057
    ∷ row 4069 957 131 11 4111
    ∷ row 4112 726 137 11 4159
    ∷ row 4165 583 137 11 4211
    ∷ row 4207 782 137 11 4253
    ∷ row 4252 37 137 11 4297
    ∷ row 4318 758 137 11 4363
    ∷ row 4365 777 137 11 4409
    ∷ row 4418 104 139 11 4463
    ∷ row 4468 476 139 11 4513
    ∷ row 4513 113 149 11 4567
    ∷ row 4567 313 149 11 4621
    ∷ row 4626 102 149 11 4679
    ∷ row 4681 501 149 11 4733
    ∷ row 4731 332 149 11 4783
    ∷ row 4780 786 149 11 4831
    ∷ row 4838 99 149 11 4889
    ∷ row 4901 658 149 11 4951
    ∷ row 4954 794 149 11 5003
    ∷ row 5008 37 151 11 5059
    ∷ row 5063 471 151 11 5113
    ∷ row 5116 94 157 11 5171
    ∷ row 5172 873 157 11 5227
    ∷ row 5225 918 157 11 5279
    ∷ row 5279 945 157 11 5333
    ∷ row 5334 211 157 11 5387
    ∷ row 5391 341 157 11 5443
    ∷ row 5449 11 163 11 5507
    ∷ row 5506 578 163 11 5563
    ∷ row 5566 494 163 11 5623
    ∷ row 5637 694 163 11 5693
    ∷ row 5694 252 163 11 5749
    ∷ row 5763 451 167 11 5821
    ∷ row 5823 83 167 11 5881
    ∷ row 5896 689 167 11 5953
    ∷ row 5975 488 173 11 6037
    ∷ row 6039 214 173 11 6101
    ∷ row 6102 17 173 11 6163
    ∷ row 6169 469 173 11 6229
    ∷ row 6233 263 179 11 6299
    ∷ row 6296 309 179 11 6361
    ∷ row 6363 984 179 11 6427
    ∷ row 6427 123 179 11 6491
    ∷ row 6518 360 179 11 6581
    ∷ row 6589 863 181 11 6653
    ∷ row 6655 122 181 11 6719
    ∷ row 6730 522 191 11 6803
    ∷ row 6799 539 191 11 6871
    ∷ row 6878 181 191 11 6949
    ∷ row 6956 64 191 11 7027
    ∷ row 7033 387 191 11 7103
    ∷ row 7108 967 191 11 7177
    ∷ row 7185 843 191 11 7253
    ∷ row 7281 999 193 11 7351
    ∷ row 7360 76 197 11 7433
    ∷ row 7445 142 197 11 7517
    ∷ row 7520 599 197 11 7591
    ∷ row 7596 576 199 11 7669
    ∷ row 7675 176 211 11 7759
    ∷ row 7770 392 211 11 7853
    ∷ row 7855 332 211 11 7937
    ∷ row 7935 291 211 11 8017
    ∷ row 8030 913 211 11 8111
    ∷ []
