-- ===== src/MarcSample/Third.antt =====
-- src/yaz-marc-sample.cpp: records 17 to 23 of `marc_records`, by their characters.
use yazpp.Prelude.{List, [], ◌∷◌}
use yazpp.Prelude.Text.{String}

abbrev pub record_seventeen : List String
record_seventeen =
    "00766nam  22002658a 4500001000900000005001700009008004100026010001700067020001500084"
    ∷ "035002900099040001300128050002900141082001600170245007600186250001600262260005600278"
    ∷ "263000900334300001100343440003200354500002000386650003200406650001900438700002500457"
    ∷ "700001800482\u{1e}ACD-3665\u{1e}19930730092004.1\u{1e}930721s1993    nju           001 0 e"
    ∷ "ng  \u{1e}  \u{1f}a   93030775 \u{1e}  \u{1f}a0132896613\u{1e}00\u{1f}ilcmarc/ARI-3804/JULIANNE"
    ∷ "\u{1e}  \u{1f}aDLC\u{1f}cDLC\u{1e}00\u{1f}aTK5105.875.I57\u{1f}bI56 1993\u{1e}00\u{1f}a384.3/4\u{1f}22"
    ∷ "0\u{1e}00\u{1f}aInternet :\u{1f}bmailing lists /\u{1f}cedited by Edward T.L. Hardie, Vivian "
    ∷ "Neou.\u{1e}  \u{1f}aUpdated ed.\u{1e}  \u{1f}aEnglewood Cliffs, N.J. :\u{1f}bPTR Prentice Hall"
    ∷ ",\u{1f}c1993.\u{1e}  \u{1f}a9308\u{1e}  \u{1f}ap. cm.\u{1e} 0\u{1f}aInternet information series"
    ∷ "\u{1e}  \u{1f}aIncludes index.\u{1e} 0\u{1f}aInternet (Computer network)\u{1e} 0\u{1f}aMailing l"
    ∷ "ists.\u{1e}10\u{1f}aHardie, Edward T. L.\u{1e}10\u{1f}aNeou, Vivian.\u{1e}\u{1d}" ∷ []

abbrev pub record_eighteen : List String
record_eighteen =
    "01324nam  2200289Ia 4500001000900000008004100009005001700050010001300067037002300080"
    ∷ "043001200103074001900115086002200134049000900156245006200165260014500227300002500372"
    ∷ "500008000397500022100477500005500698500002100753500002200774610006100796650004300857"
    ∷ "650004500900700002100945710006800966\u{1e}ACD-2728\u{1e}910514s1984    nyu      r   f001"
    ∷ "00 eng d\u{1e}19910519144551.0\u{1e}  \u{1f}o23740002\u{1e}  \u{1f}aED ED 289459\u{1f}bERIC\u{1e} "
    ∷ " \u{1f}an-us---\u{1e}  \u{1f}a0466-A-03 (MF)\u{1e}0 \u{1f}aED 1.310/2:289459\u{1e}  \u{1f}aDRUG"
    ∷ "\u{1e}00\u{1f}aTechnology programs that work /\u{1f}cMichael B. Webb, editor.\u{1e}0 \u{1f}aNe"
    ∷ "w York, N.Y. :\u{1f}bTechnology for the NDN Project, Institute for Urban and Minority "
    ∷ "Education, Teachers College, Columbia University,\u{1f}c[1984]\u{1e}  \u{1f}a72, [1] p. ;"
    ∷ "\u{1f}c28 cm.\u{1e}  \u{1f}a\"Spons agency Office of Educational Research and Improvement"
    ∷ "\"--Doc. resume.\u{1e}  \u{1f}a\"This directory was developed by the Technology for the "
    ∷ "National Diffusion Network Project, Teachers College, Columbia University pursuant t"
    ∷ "o contract number OE-300-83-0253, U.S. Department of Education\"--T.p. verso.\u{1e}  "
    ∷ "\u{1f}aDistributed to depository libraries in microfiche.\u{1e}  \u{1f}a\"December 1984.\""
    ∷ "\u{1e}  \u{1f}aIncludes indexes.\u{1e}10\u{1f}aUnited States.\u{1f}bNational Diffusion Network"
    ∷ "\u{1f}xDirectories.\u{1e} 0\u{1f}aEducational technology\u{1f}zUnited States.\u{1e} 0\u{1f}aFede"
    ∷ "ral aid to education\u{1f}zUnited States.\u{1e}10\u{1f}aWebb, Michael B.\u{1e}10\u{1f}aUnited "
    ∷ "States.\u{1f}bOffice of Educational Research and Improvement.\u{1e}\u{1d}" ∷ []

abbrev pub record_nineteen : List String
record_nineteen =
    "01559nam  2200373Ia 4500001000900000008004100009005001700050010001300067037002000080"
    ∷ "043001200100074001900112086002200131088001600153049000900169100002200178245025900200"
    ∷ "260010500459300003300564500005500597500001700652504004100669500001800710650004400728"
    ∷ "650004400772650003700816650005200853650003700905700004400942700002500986710004801011"
    ∷ "710003001059710006801089740002801157\u{1e}ACD-2476\u{1e}910425s1987    dcua     b   f000"
    ∷ "10 eng d\u{1e}19910519144551.0\u{1e}  \u{1f}o23602389\u{1e}  \u{1f}aED 288529\u{1f}bERIC\u{1e}  "
    ∷ "\u{1f}an-us---\u{1e}  \u{1f}a0466-A-03 (MF)\u{1e}0 \u{1f}aED 1.310/2:288529\u{1e}  \u{1f}aLP 87-40"
    ∷ "3 c\u{1e}  \u{1f}aDRUG\u{1e}10\u{1f}aSeager, Andrew J.\u{1e}10\u{1f}aCheck this out :\u{1f}blibrar"
    ∷ "y program models /\u{1f}cprepared by Andrew J. Seager, Sarah J. Roberts, Carol Z. Linc"
    ∷ "oln ; prepared for National Diffusion Network under contract to RMC Corporation, con"
    ∷ "tract 300-84-0251 with the United States Department of Education.\u{1e}0 \u{1f}aWashingt"
    ∷ "on, D.C. :\u{1f}bOffice of Educational Research and Improvement, U.S. Dept. of Educati"
    ∷ "on,\u{1f}c[1987]\u{1e}  \u{1f}aix, 319 p. :\u{1f}bill. ;\u{1f}c28 cm.\u{1e}  \u{1f}aDistributed to"
    ∷ " depository libraries in microfiche.\u{1e}  \u{1f}a\"July 1987.\"\u{1e}  \u{1f}aIncludes bib"
    ∷ "liographical references.\u{1e}  \u{1f}a\"LP 87-403c.\"\u{1e} 0\u{1f}aLibraries and community"
    ∷ "\u{1f}zUnited States.\u{1e} 0\u{1f}aLibraries and education\u{1f}zUnited States.\u{1e} 0\u{1f}aS"
    ∷ "chool libraries\u{1f}zUnited States.\u{1e} 0\u{1f}aInstructional materials centers\u{1f}zUni"
    ∷ "ted States.\u{1e} 0\u{1f}aPublic libraries\u{1f}zUnited States.\u{1e}10\u{1f}aRoberts, Sarah J"
    ∷ ".\u{1f}q(Sarah Jane),\u{1f}d1946-\u{1e}10\u{1f}aLincoln, Carol Zall.\u{1e}10\u{1f}aUnited States"
    ∷ ".\u{1f}bNational Diffusion Network.\u{1e}20\u{1f}aRMC Research Corporation.\u{1e}10\u{1f}aUnit"
    ∷ "ed States.\u{1f}bOffice of Educational Research and Improvement.\u{1e}01\u{1f}aLibrary pro"
    ∷ "gram models.\u{1e}\u{1d}" ∷ []

abbrev pub record_twenty : List String
record_twenty =
    "01155nas  22003135a 4500001000900000008004100009005001700050010002700067040000800094"
    ∷ "012001200102042000700114050001500121074001100136086002000147049000900167212008300176"
    ∷ "245006900259260011500328265007100443300001700514310001100531500003200542610003600574"
    ∷ "650006200610650006400672710002200736710007000758936001300828\u{1e}ACD-2376\u{1e}910225c1"
    ∷ "9uu9999dcuar        f0uuu 0eng  \u{1e}19910519144551.0\u{1e}  \u{1f}a   91656060 \u{1f}o2315"
    ∷ "0847\u{1e}  \u{1f}dGPO\u{1e}  \u{1f}a2\u{1f}i9103\u{1e}  \u{1f}alc\u{1e}00\u{1f}aIN PROCESS\u{1e}  \u{1f}a"
    ∷ "0785-H\u{1e}0 \u{1f}aLC 1.40/2:F 31/\u{1e}  \u{1f}aDRUG\u{1e}0 \u{1f}aFederal Library and Inform"
    ∷ "ation Network services directory for fiscal year ...\u{1e}00\u{1f}aFEDLINK services dire"
    ∷ "ctory for fiscal year ... /\u{1f}cFLICC/FEDLINK.\u{1e}00\u{1f}aWashington, D.C. :\u{1f}bFede"
    ∷ "ral Library and Information Network, Federal Library and Information Center Committe"
    ∷ "e,\u{1e}  \u{1f}aFEDLINK, Room LA 1026C, Library of Congress, Washington D.C. 20540\u{1e} "
    ∷ " \u{1f}av. ;\u{1f}c28 cm.\u{1e}  \u{1f}aAnnual\u{1e}  \u{1f}aDescription based on: 1990.\u{1e}20"
    ∷ "\u{1f}aFEDLINK (Network)\u{1f}xDirectories.\u{1e} 0\u{1f}aLibrary information networks\u{1f}zU"
    ∷ "nited States\u{1f}xDirectories.\u{1e} 0\u{1f}aLibraries, Governmental, administrative, etc"
    ∷ ".\u{1f}xPeriodicals.\u{1e}20\u{1f}aFEDLINK (Network)\u{1e}20\u{1f}aUnited States.\u{1f}bFederal "
    ∷ "Library and Information Center Committee.\u{1e}  \u{1f}a1991 LIC\u{1e}\u{1d}" ∷ []

abbrev pub record_twenty_one : List String
record_twenty_one =
    "00915nam  2200229Ka 4500001000900000008004100009005001700050010001300067040001300080"
    ∷ "037002000093074001900113086002200132049000900154100001800163245015700181260012400338"
    ∷ "300000900462533009300471500005500564650001400619710005200633\u{1e}ACD-1949\u{1e}910415r1"
    ∷ "9901087dcu     b    f00010 eng d\u{1e}19910421122541.0\u{1e}  \u{1f}o23469261\u{1e}  \u{1f}aGP"
    ∷ "O\u{1f}cGPO\u{1e}  \u{1f}aED 286992\u{1f}bERIC\u{1e}  \u{1f}a0466-A-03 (MF)\u{1e}0 \u{1f}aED 1.310/2"
    ∷ ":286992\u{1e}  \u{1f}aDRUG\u{1e}10\u{1f}aPaulu, Nancy.\u{1e}10\u{1f}aDealing with dropouts\u{1f}hm"
    ∷ "icroform :\u{1f}bthe urban superintendents' call to action /\u{1f}cby the OERI Urban Sup"
    ∷ "erintendents Network ; Nancy Paulu, writer-editor.\u{1e}0 \u{1f}a[Washington, D.C]. :"
    ∷ "\u{1f}bOffice of Educational Research and Improvement, Educational Resources Informati"
    ∷ "on Center,\u{1f}c[1987]\u{1e}  \u{1f}a1 v.\u{1e}  \u{1f}aMicrofiche.\u{1f}b[Washington, D.C.?] :"
    ∷ "\u{1f}cSupt. of Docs., U.S. G.P.O.,\u{1f}d[1990].\u{1f}e1 microfiche.\u{1e}  \u{1f}aDistribute"
    ∷ "d to depository libraries in microfiche.\u{1e} 0\u{1f}aDropouts.\u{1e}20\u{1f}aEducational R"
    ∷ "esources Information Center (U.S.)\u{1e}\u{1d}" ∷ []

abbrev pub record_twenty_two : List String
record_twenty_two =
    "01053nam  2200217Ka 4500001000900000008004100009005001700050010001300067037002000080"
    ∷ "074001900100086002200119049000900141245016300150260025100313300000900564533009400573"
    ∷ "500005500667650002400722650003700746710005200783\u{1e}ACD-1947\u{1e}910415r19901986dcu  "
    ∷ "   b    f00010 eng d\u{1e}19910421122541.0\u{1e}  \u{1f}o23469098\u{1e}  \u{1f}aED 286333\u{1f}b"
    ∷ "ERIC\u{1e}  \u{1f}a0466-A-03 (MF)\u{1e}0 \u{1f}aED 1.310/2:286333\u{1e}  \u{1f}aDRUG\u{1e}00\u{1f}aN"
    ∷ "ational dissemination model for the I'M SPECIAL Program of Physical Education for th"
    ∷ "e Handicapped, 1983-1986\u{1f}hmicroform :\u{1f}bfinal report, I'M SPECIAL network.\u{1e}0"
    ∷ " \u{1f}aTampa, Fla. :\u{1f}bDepartment of Physical Education, College of Education, Univ"
    ∷ "ersity of South Florida ;\u{1f}a[Washington, D.C.] :\u{1f}bU.S. Dept. of Education, Offi"
    ∷ "ce of Educational Research and Improvement, Educational Resources Information Center"
    ∷ ",\u{1f}c[1986]\u{1e}  \u{1f}a1 v.\u{1e}  \u{1f}aMicrofiche.\u{1f}b[Washington, D.C.?] :\u{1f}cSupt"
    ∷ ". of Docs., U.S. G.P.O.,\u{1f}d[1990].\u{1f}e2 microfiches.\u{1e}  \u{1f}aDistributed to dep"
    ∷ "ository libraries in microfiche.\u{1e} 0\u{1f}aPhysical education.\u{1e} 0\u{1f}aHandicapped"
    ∷ " children\u{1f}xEducation.\u{1e}20\u{1f}aEducational Resources Information Center (U.S.)"
    ∷ "\u{1e}\u{1d}" ∷ []

abbrev pub record_twenty_three : List String
record_twenty_three =
    "01036nam  2200289Ia 4500001000900000008004100009005001700050010001300067040001300080"
    ∷ "043001200093074001400105086001800119088001500137049000900152245004500161260010500206"
    ∷ "300004100311500005500352500003300407500002800440500002600468610004800494650005500542"
    ∷ "650004400597710006800641740003700709\u{1e}ACD-1938\u{1e}910415s1991    dcu          f000"
    ∷ "00 eng d\u{1e}19910421122541.0\u{1e}  \u{1f}o23468272\u{1e}  \u{1f}aGPO\u{1f}cGPO\u{1e}  \u{1f}an-us"
    ∷ "---\u{1e}  \u{1f}a0461-D-05\u{1e}0 \u{1f}aED 1.302:Sh 2\u{1e}  \u{1f}aPIP 91-836\u{1e}  \u{1f}aDRUG"
    ∷ "\u{1e}00\u{1f}aNDN, sharing success to improve schools.\u{1e}0 \u{1f}a[Washington, DC] :\u{1f}"
    ∷ "bU.S. Dept. of Education, Office of Educational Research and Improvement,\u{1f}c[1991]"
    ∷ "\u{1e}  \u{1f}a1 folded sheet (6 p.) ;\u{1f}c22 x 10 cm.\u{1e}  \u{1f}aAt head of title: Natio"
    ∷ "nal Diffusion Network, NDN.\u{1e}  \u{1f}aShipping list no.: 91-198-P.\u{1e}  \u{1f}a\"Janua"
    ∷ "ry 1991\"--P. [5].\u{1e}  \u{1f}a\"PIP 91-836\"--P. [5].\u{1e}10\u{1f}aUnited States.\u{1f}bNa"
    ∷ "tional Diffusion Network.\u{1e} 0\u{1f}aDemonstration centers in education\u{1f}zUnited St"
    ∷ "ates.\u{1e} 0\u{1f}aEducational innovations\u{1f}zUnited States.\u{1e}10\u{1f}aUnited States."
    ∷ "\u{1f}bOffice of Educational Research and Improvement.\u{1e}01\u{1f}aNational Diffusion Ne"
    ∷ "twork, NDN.\u{1e}\u{1d}" ∷ []
